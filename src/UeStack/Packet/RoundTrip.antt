-- ===== src/UeStack/Packet/RoundTrip.antt =====
-- What is packed is unpacked, and the other way round.
use labtris.Prelude.{ℕ, ◌%◌, Bytes, IsByte, All, take, ◌++◌, ◌≡◌, refl, arith}
use labtris.Prelude.Result.{ok, >>=-eq-ok}
use labtris.UeStack.Struct.{pack8, pack16, pack32, unpack8, unpack16, unpack32}
use labtris.UeStack.Packet.{
  OpCode, write, op_code, to_op, pdc_code, to_pdc_type, SesHeader, PdsHeader, PdcHeader, UePacket,
  pack_ses, unpack_ses, pack_pds, unpack_pds, pack_pdc, unpack_pdc, pack, unpack,
}

unpack8-pack8 : (n : ℕ) (r : Bytes) {b : Bytes} → pack8 n ≡ ok b → unpack8 (b ++ r) ≡ ok (n, r)
unfolding pack8 unpack8
unpack8-pack8 n r h = ground arith

unpack16-pack16 : (n : ℕ) (r : Bytes) {b : Bytes} → pack16 n ≡ ok b → unpack16 (b ++ r) ≡ ok (n, r)
unfolding pack16 unpack16
unpack16-pack16 n r h = ground arith

unpack32-pack32 : (n : ℕ) (r : Bytes) {b : Bytes} → pack32 n ≡ ok b → unpack32 (b ++ r) ≡ ok (n, r)
unfolding pack32 unpack32
unpack32-pack32 n r h = ground arith

to_op-op_code : (c : OpCode) → to_op (op_code c) ≡ ok c
unfolding to_op op_code
to_op-op_code write = refl
to_op-op_code _ = refl

unpack_ses-pack_ses :
    (p : SesHeader) (r : Bytes) {b : Bytes} → pack_ses p ≡ ok b → unpack_ses (b ++ r) ≡ ok (p, r)
unfolding pack_ses unpack_ses pack8 unpack8 pack16 pack32 unpack32 unpack16
unpack_ses-pack_ses p r h = ground (arith, to_op-op_code p.op)

unpack_pds-pack_pds :
    (p : PdsHeader) (r : Bytes) {b : Bytes} → pack_pds p ≡ ok b → unpack_pds (b ++ r) ≡ ok (p, r)
unfolding pack_pds unpack_pds pack8 unpack8 pack16 pack32 unpack32 unpack16 pdc_code to_pdc_type
unpack_pds-pack_pds p r h = ground arith

-- what `& 0xff` leaves of a header
unfoldable pub masked : PdcHeader → PdcHeader
masked h = record h { credits = h.credits % 256; priority = h.priority % 256 }

unpack_pdc-pack_pdc :
    (p : PdcHeader) (r : Bytes) {b : Bytes}
    → pack_pdc p ≡ ok b
    → unpack_pdc (b ++ r) ≡ ok (masked p, r)
unfolding pack_pdc unpack_pdc pack16 unpack16 masked
unpack_pdc-pack_pdc p r h = ground arith

module _ (p : UePacket) {ses pds pdc : Bytes} where
  unpack-append :
      pack_ses p.ses ≡ ok ses
      → pack_pds p.pds ≡ ok pds
      → pack_pdc p.pdc ≡ ok pdc
      → unpack (ses ++ (pds ++ (pdc ++ p.payload))) ≡ ok (record p { pdc = masked p.pdc })
  unfolding unpack
  unpack-append hs hp hc = rw (
    unpack_ses-pack_ses p.ses _ hs,
    unpack_pds-pack_pds p.pds _ hp,
    unpack_pdc-pack_pdc p.pdc _ hc,
  )

-- A packet that packs is read back as itself, up to `& 0xff` on its credits and its priority.
pub unpack-pack :
    (p : UePacket) {b : Bytes} → pack p ≡ ok b → unpack b ≡ ok (record p { pdc = masked p.pdc })
unfolding pack
unpack-pack p h =
    let (ses, hs, h1) = >>=-eq-ok (pack_ses p.ses) _ h in
    let (pds, hp, h2) = >>=-eq-ok (pack_pds p.pds) _ h1 in
    let (pdc, hc, h3) = >>=-eq-ok (pack_pdc p.pdc) _ h2 in cc (h3, unpack-append p hs hp hc)

pack_ses-unpack_ses :
    (b : Bytes) (p : SesHeader) (r : Bytes)
    → All IsByte b
    → unpack_ses b ≡ ok (p, r)
    → (pack_ses p ≡ ok (take 16 b)) × (b ≡ take 16 b ++ r) × All IsByte r
unfolding pack_ses unpack_ses pack8 unpack8 pack16 pack32 unpack32 unpack16 op_code to_op
pack_ses-unpack_ses b p r w h = (ground arith, ground arith, ground arith)

pack_pds-unpack_pds :
    (b : Bytes) (p : PdsHeader) (r : Bytes)
    → All IsByte b
    → unpack_pds b ≡ ok (p, r)
    → (pack_pds p ≡ ok (take 12 b)) × (b ≡ take 12 b ++ r) × All IsByte r
unfolding pack_pds unpack_pds pack8 unpack8 pack16 pack32 unpack32 unpack16 pdc_code to_pdc_type
pack_pds-unpack_pds b p r w h = (ground arith, ground arith, ground arith)

pack_pdc-unpack_pdc :
    (b : Bytes) (p : PdcHeader) (r : Bytes)
    → All IsByte b
    → unpack_pdc b ≡ ok (p, r)
    → (pack_pdc p ≡ ok (take 4 b)) × (b ≡ take 4 b ++ r) × All IsByte r
unfolding pack_pdc unpack_pdc pack16 unpack16
pack_pdc-unpack_pdc b p r w h = (ground arith, ground arith, ground arith)

-- The bytes of an accepted datagram, all below 256, are the bytes that its packet packs to.
pub pack-unpack : (b : Bytes) {p : UePacket} → All IsByte b → unpack b ≡ ok p → pack p ≡ ok b
unfolding pack unpack
pack-unpack b {p} w h =
    let ((ses, r1), hs, h1) = >>=-eq-ok (unpack_ses b) _ h in
    let ((pds, r2), hp, h2) = >>=-eq-ok (unpack_pds r1) _ h1 in
    let ((pdc, r3), hc, h3) = >>=-eq-ok (unpack_pdc r2) _ h2 in
    let (ps, bs, w1) = pack_ses-unpack_ses b ses r1 w hs in
    let (pp, bp, w2) = pack_pds-unpack_pds r1 pds r2 w1 hp in
    let (pc, bc, w3) = pack_pdc-unpack_pdc r2 pdc r3 w2 hc in ground arith
