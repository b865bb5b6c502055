-- ===== src/UeStack/Packet.antt =====
-- ue_stack/packet.py: the SES, PDS and PDC headers and the packet, packed and unpacked.
-- Header fields are ints that are not negative. The proofs are in the module below.
pub mod RoundTrip
pub mod Outcome
use labtris.Prelude.{ℕ, ◌+◌, ◌*◌, ◌/◌, ◌%◌, Bytes, ◌++◌, ◌==◌, if◌then◌else◌}
use labtris.Prelude.Result.{Result, ok, err, value_error, ◌>>=◌}
use labtris.UeStack.Struct.{pack8, pack16, pack32, unpack8, unpack16, unpack32}

pub data PdcType : Type 0 where
  ipdc tpdc : PdcType

pub data OpCode : Type 0 where
  write read send ack nack : OpCode

-- `int(op)`
unfoldable pub op_code : OpCode → ℕ
op_code write = 0x01
op_code read = 0x02
op_code send = 0x03
op_code ack = 0x10
op_code nack = 0x11

-- `OpCode(n)`
unfoldable pub to_op : ℕ → Result OpCode
to_op n =
    if n == 0x01
    then ok write
    else if n == 0x02
    then ok read
    else if n == 0x03
    then ok send
    else if n == 0x10
    then ok ack
    else if n == 0x11
    then ok nack
    else err value_error

-- `int(pdc_type)`
unfoldable pub pdc_code : PdcType → ℕ
pdc_code ipdc = 1
pdc_code tpdc = 2

-- `PdcType(n)`
unfoldable pub to_pdc_type : ℕ → Result PdcType
to_pdc_type n = if n == 1 then ok ipdc else if n == 2 then ok tpdc else err value_error

pub record SesHeader : Type 0 where
  pub op : OpCode
  pub flags : ℕ
  pub msn : ℕ
  pub txn_id : ℕ
  pub dst_endpoint : ℕ
  pub reserved : ℕ

pub record PdsHeader : Type 0 where
  pub pdc_type : PdcType
  pub psn : ℕ
  pub dst_pdc_id : ℕ
  pub reserved : ℕ
  pub reserved8 : ℕ

pub record PdcHeader : Type 0 where
  pub credits : ℕ
  pub priority : ℕ
  pub reserved : ℕ

pub record UePacket : Type 0 where
  pub ses : SesHeader
  pub pds : PdsHeader
  pub pdc : PdcHeader
  pub payload : Bytes

-- `!BBIIIH`
unfoldable pub pack_ses : SesHeader → Result Bytes
unfolding pack8 pack16 pack32 op_code
pack_ses h = do
  op ← pack8 (op_code h.op)
  flags ← pack8 h.flags
  msn ← pack32 h.msn
  txn ← pack32 h.txn_id
  ep ← pack32 h.dst_endpoint
  res ← pack16 h.reserved
  ok (op ++ (flags ++ (msn ++ (txn ++ (ep ++ res)))))

-- The buffer is read before the code is looked up, so a short buffer is a struct.error.
unfoldable pub unpack_ses : Bytes → Result (SesHeader × Bytes)
unfolding unpack8 unpack16 unpack32 to_op
unpack_ses b = do
  (op, b1) ← unpack8 b
  (flags, b2) ← unpack8 b1
  (msn, b3) ← unpack32 b2
  (txn, b4) ← unpack32 b3
  (ep, b5) ← unpack32 b4
  (res, rest) ← unpack16 b5
  code ← to_op op
  ok (
    record { op = code; flags = flags; msn = msn; txn_id = txn; dst_endpoint = ep; reserved = res },
    rest,
  )

-- `!BBIIH`
unfoldable pub pack_pds : PdsHeader → Result Bytes
unfolding pack8 pack16 pack32 pdc_code
pack_pds h = do
  kind ← pack8 (pdc_code h.pdc_type)
  res8 ← pack8 h.reserved8
  psn ← pack32 h.psn
  id ← pack32 h.dst_pdc_id
  res ← pack16 h.reserved
  ok (kind ++ (res8 ++ (psn ++ (id ++ res))))

unfoldable pub unpack_pds : Bytes → Result (PdsHeader × Bytes)
unfolding unpack8 unpack16 unpack32 to_pdc_type
unpack_pds b = do
  (kind, b1) ← unpack8 b
  (res8, b2) ← unpack8 b1
  (psn, b3) ← unpack32 b2
  (id, b4) ← unpack32 b3
  (res, rest) ← unpack16 b4
  type ← to_pdc_type kind
  ok (
    record { pdc_type = type; psn = psn; dst_pdc_id = id; reserved = res; reserved8 = res8 },
    rest,
  )

-- `!HH`; `(c & 0xff) << 8 | (p & 0xff)` joins disjoint bits, so it is a sum
unfoldable pub pack_pdc : PdcHeader → Result Bytes
unfolding pack16
pack_pdc h = do
  prio_creds ← pack16 (h.credits % 256 * 256 + h.priority % 256)
  res ← pack16 h.reserved
  ok (prio_creds ++ res)

unfoldable pub unpack_pdc : Bytes → Result (PdcHeader × Bytes)
unfolding unpack16
unpack_pdc b = do
  (prio_creds, b1) ← unpack16 b
  (res, rest) ← unpack16 b1
  ok (
    record { credits = prio_creds / 256 % 256; priority = prio_creds % 256; reserved = res },
    rest,
  )

unfoldable pub pack : UePacket → Result Bytes
pack p = do
  ses ← pack_ses p.ses
  pds ← pack_pds p.pds
  pdc ← pack_pdc p.pdc
  ok (ses ++ (pds ++ (pdc ++ p.payload)))

unfoldable pub unpack : Bytes → Result UePacket
unpack b = do
  (ses, r1) ← unpack_ses b
  (pds, r2) ← unpack_pds r1
  (pdc, r3) ← unpack_pdc r2
  ok (record { ses = ses; pds = pds; pdc = pdc; payload = r3 })
