-- ===== src/Lib.antt =====
-- go-monero: a levin peer-to-peer client and Monero's wire formats in Go.
--
-- The program opens a levin session with a Monero node (levin/client.go): each
-- message is a header of 33 bytes (levin/levin.go) and a body in Monero's
-- portable storage (levin/portable_storage.go, levin/boost.go). The client's
-- handshake reads the answer into a node and its peers (levin/node.go); timed
-- syncs and pings have bodies of their own (levin/timedsync.go, levin/ping.go).
-- Transactions (types/tx.go) and blocks (types/block.go) are written and parsed
-- with the varints of util/crypto.go and levin/portable_storage.go; the members of
-- a transaction's rings are sent as offsets (types/gamma_selector.go).
--
-- Files:
--   Base        Boolean tests, lists over the native numbers, results with
--               errors and panics, bytes in little-endian order, hexadecimal,
--               decimal numbers and the text of addresses
--   Varint      EncodeVarint, Uint64ToBytes, ReadVarint, ReadUint8
--   Levin/Slice    slice expressions, by length and capacity
--   Levin/VarIn    VarIn, ReadVarInt
--   Levin/Header   Header, its bytes, NewHeaderFromBytesBytes
--   Levin/Entry    Entry, Section, the Serializable values and the accessors
--   Levin/Boost    the Bytes methods of boost.go
--   Levin/Storage  PortableStorage.Bytes and Entry.Bytes; Storage/Read has
--                  NewPortableStorageFromBytes and the readers, Storage/Wire an
--                  independent description of what is on the wire
--   Levin/Node     ParsePeerList, NewNodeFromEntries, ipzify
--   Levin/Ping, Levin/TimedSync   the bodies of these messages
--   Levin/Conn     a net.Conn: the bytes to come, the bytes sent, and the room
--                  that is left for more
--   Levin/Client   Handshake, ReadMessage, SendRequest, SendResponse
--   Tx             the structs of types/tx.go, Serialize and its parts, CalcHash;
--                  Tx/Read has ParseTx and ParseRctSig
--   Block          the structs of types/block.go, FullfillBlockHeader, getBlockHeader,
--                  CalculateMinerBuff, CalculateMinerTxHash; Block/Merkle has calcMerkleRoot,
--                  GetHashingBlob and GetBlockId
--   Ring           BuildKeyOffsets and the indices of GetMixins (types/gamma_selector.go);
--                  Ring/Decoys has SelectDecoys
--   Extra          ParseTxExtra (util/crypto.go) and the field that CalcExtra writes (types/tx2.go)
--   Base58, Address   decodeMoneroBase58, DecodeAddress, ExtractPaymentID, IsSubAddress
--                  (util/crypto.go); Address/Format has what an address is
--   Curve          the operations of filippo.io/edwards25519 and of the ref10 port in
--                  util/edwards25519.go, as a parameter, and the laws that are
--                  documented of them; Curve/Residue has a group that meets the laws
--   Secret         SharedSecret, DerivePublicKeyMy (util/crypto.go), the derivations and the
--                  key image of util/keyimage.go
--   PaymentId      EncryptPaymentID and DecryptShortPaymentID (util/crypto.go)
--   Amount         view tags, encrypted amounts, masks and commitments (util/keyimage.go
--                  and types/tx.go)
--   PseudoOuts     calculatePseudoOuts (types/bpp.go)
--   Clsag          the ring signatures (types/clsag.go): ClsagGen, proveRctCLSAGSimple; Clsag/Message
--                  has GetFullMessage, signCLSAGs and PrefixHash (types/tx2.go), Clsag/Verify a
--                  verifier over scalars and points
--   Scan           CheckOutputs, verifyViewKeyPair (types/tx.go), HexTo32 (util/crypto.go)
--   Build          NewEmptyTransaction, WriteInput, WriteOutput, CalcFeeDifference, CalcExtra,
--                  writeOutput2, CalcOutputs (types/tx2.go)
--   Samples        secrets and a hash function for the tests
--
-- A byte is a native number below 256 and a []byte is a list of them. A call
-- that fails returns `err`, one that panics in Go returns `panic` with the
-- reason, and a reader on fuel returns `out_of_fuel` when it has none left.
-- A slice expression with an upper bound panics beyond the capacity of the slice: the readers of
-- levin/portable_storage.go take, as `spare`, the bytes that the array behind a slice holds between its
-- length and its capacity. ReadMessage reads into a slice that has none; Handshake reads into a
-- bytes.Buffer, and what its array holds behind the body is a parameter of the model.
-- The lengths of messages are as the code has them, which rejects none above 100MB.
-- Machine integers wrap by `% 2 ^ w`; an int is taken to have 64 bits.
--
-- Fuel: the storage parser has three units for each byte and three more, since a
-- byte costs at most three calls; the rounds of a handshake have one for each
-- byte to come and one more, since a round takes a header; ParseTxExtra has one for
-- each byte, since a round takes its tag; the loop of ClsagGen has one for each member of the
-- ring, since it goes round once.
--
-- The hash function Keccak-256 is a parameter of the functions that call it, and so are
-- the curve, the random scalars, and the decimal arithmetic between a float64 and atomic
-- units: an amount is in atomic units here, and Scan has the type of an amount as a
-- parameter. The laws of the curve by which scalars are reduced speak of multiples of the
-- base point only, since outside that subgroup they do not hold.
--
-- Not modelled: the curve arithmetic of util/edwards25519.go and util/const.go (a
-- port of the ref10 library with its tables), the range proofs that are built on it, wallets, the
-- distribution that decoys are drawn from, the inputs of a transaction that is built (which ask a
-- node), the HTTP client of rpc, and logging.
pub mod Base
pub mod Varint
pub mod Levin
pub mod Tx
pub mod Block
pub mod Ring
pub mod Address
pub mod Amount
pub mod Base58
pub mod Build
pub mod Clsag
pub mod Curve
pub mod Extra
pub mod PaymentId
pub mod PseudoOuts
pub mod Samples
pub mod Scan
pub mod Secret
