-- ===== src/Lib.antt =====
-- Isopace: a financial transaction framework. This library models the parts of it that other parts
-- stand on and shows what makes them correct.
--
-- The parts and how they interact. An ISO 8583 message is a bitmap of the data elements present,
-- and then the fields, each with a length in front where it is variable. The byte-level packages
-- (internal/bcd, internal/ebcdic, lengthcodec, and the bitmap codec of fieldcodec) turn numbers,
-- text and bitmaps into the bytes of a wire, and the codecs of fieldcodec do so with values. The
-- engine (iso8583) makes messages of them by a schema, which says of each data element which
-- codecs it has. link/ frames messages on a stream, and mux/ matches
-- responses to requests over one link. flow/ drives a transaction through stages in
-- two phases. space/ keeps queues of values, in memory or
-- in a log on disk. vault/ makes PIN blocks, key blocks, transaction keys and
-- MACs. rbac/
-- decides who may do what.
--
-- Which file models which part:
--   Bcd           internal/bcd/bcd.go: PackedLen, Pack, Unpack, PackRight, UnpackRight
--   Ebcdic        internal/ebcdic/ebcdic.go: the two code pages, as newTable fills them
--   Digits        the decimal digits of a number, as strconv prints and the length codecs read them
--   Length        lengthcodec/length.go: the fixed and the variable lengths, ReadLen and WriteLen
--   Bitmap        iso8583/bitmap.go: Set, Clear, IsSet, Count, Width, Range
--   BitmapCodec   fieldcodec/bitmap.go: levelWords, ReadBitmap, WriteBitmap and the word forms
--   Engine        iso8583/value.go, schema.go, codec_iface.go (Types), message.go (Message),
--                 codec.go (Codec): New, Get, Set, Unset, Clone, Unmarshal, Marshal
--   Engine.Validate  iso8583/validate.go, and Validate of codec.go
--   Engine.Parse  iso8583/value.go: Int, Uint, Decimal; message.go: makeValue
--   Decimal       iso8583/decimal.go: Rescale, Add, String
--   Field         fieldcodec/: padding, numbers, text and octets; with the length and bitmap
--                 codecs as the engine takes them (Field.Wire, Field.Presence)
--   Field.Amounts  fieldcodec/amount.go, and the binary number of numeric.go
--   Tlv           fieldcodec/tlv/bertlv.go: readTLV, appendBERLen; Tlv.Body: DecodeBody, EncodeBody,
--                 with PutTag and TagSeq of iso8583/message.go
--   CharTlv       tlv/tlv.go: Decode, Encode, Get
--   FieldPath     iso8583/path.go: ParsePath with its cache, String, Tail, Push
--   Link          link/framer.go: LengthPrefix, ReadFrame, WriteFrame
--   Space.Local   space/local.go: Out, In, Rd, Inp, Rdp, Len, Close
--   Space.Record  space/store.go: encodeRecord and readRecord
--   Space.Store   space/store.go: Open with its replay, Push, Pull and Pullp, Peek, Len, Close
--   Flow          flow/: Flow.Run, Stage, Exchange, MemoryJournal, MemoryStore
--   Flow.Retry    flow/retry.go: Retry and its policy
--   Mux           mux/mux.go: Request, the read loop, Send, stop, Err (Mux.Steps), FieldKeyer
--                 (Mux.Keys)
--   Vault.PinBlock  vault/pinblock.go: EncodePINBlockRand, DecodePINBlock
--   Vault.Cipher  vault/cipher.go and cmac.go: the ciphers, CBC, CMAC
--   Vault.Mac     vault/mac.go: GenerateMAC, VerifyMAC; emv.go
--   Vault.Dukpt   vault/dukpt.go: DeriveIPEK, DeriveSessionKey, DeriveVariant
--   Vault.KeyBlock  vault/keyblock.go: WrapKeyBlockRand, UnwrapKeyBlock
--   Rbac          rbac/rbac.go: roles, users, Grant, Revoke, Can, SetPassword, Authenticate
--   Common        lists, results, signed numbers, single bits, big-endian words
-- The folder of a file holds what is proved of it; a file named Runs holds the tests and the
-- theorems at concrete inputs.
--
-- How the state corresponds. The codecs of a schema are records of functions, which the engine
-- takes as they are, and the types of their errors and of nested messages are theirs to choose. A
-- message is the wire it was decoded from, if any, a table of slots and its flags; a `Get` answers
-- the message with the value filled in. A byte string is a list of numbers, a Go `(value, error)`
-- pair is a `Result` with the package's errors as a data type, and a machine word is a natural
-- number with its wrap-around written out. The store is a record of the sequence number, the
-- queues, the bytes of the log and the closed flag; a write to the log is an argument that says
-- whether it and the sync after it succeed. A run of a flow works on the exchange, on a world that
-- the stages share, on the journal and on the idempotency store; the stages are values, and the
-- context is what it answers in each round. A mux is the table of the requests in flight, the calls
-- with their channels and where each stands, the reader and the closed flag; a step of the relation
-- is what one goroutine does between two points where another may come in between. The local
-- space is in the same way its queues, the number of the channel that is open, and where each caller
-- of In or Rd stands. The block ciphers are a record of functions.
--
-- Bounds and fuel. The prepare loop of a flow counts down from `maxStages`, which is the limit
-- that the code has. The loop of Range gets 64 rounds for a word, one for each bit that it may
-- clear. The replay of a log gets one round more than the log has bytes, and each record takes
-- bytes. The reading of a BER-TLV body gets a round for each byte, and each triplet takes two. The
-- loop of Decode in tlv gets a round for each byte. The loop of DUKPT takes 21 rounds, one for each
-- bit of the counter. The loops over blocks
-- get a round for each byte, and those that pad get as many as a block has bytes. The
-- printing of a number gets as much fuel as the number itself.
--
-- What is not modelled: logging, timings, locks, and the waking of the blocked readers of the durable
-- store; what the engine does by a path, and nested messages but for their tags; the ciphers and
-- hashes, which are a library's; everything that is network, HTTP or the command line.
pub mod Bcd
pub mod Bitmap
pub mod BitmapCodec
pub mod CharTlv
pub mod Common
pub mod Decimal
pub mod Digits
pub mod Ebcdic
pub mod Engine
pub mod Field
pub mod FieldPath
pub mod Flow
pub mod Length
pub mod Link
pub mod Mux
pub mod Rbac
pub mod Space
pub mod Tlv
pub mod Vault
