-- ===== src/UeStack/Packet/Outcome.antt =====
-- Which packets pack, which datagrams unpack, and what the other ones raise.
use mathlib.Core.Logic.{◌↔◌}
use labtris.Prelude.{◌+◌, ◌<◌, ◌^◌, Bytes, length, ◌++◌, ◌≡◌, arith, true, length-append}
use labtris.Prelude.Result.{ok, succeeds, >>=-eq-ok, ok_value}
use labtris.UeStack.Struct.{pack8, pack16, pack32}
use labtris.UeStack.Packet.{
  op_code, pdc_code, SesHeader, PdsHeader, PdcHeader, UePacket, pack_ses, pack_pds, pack_pdc, pack,
}

-- every header field is in the range of its format code
pub record Fits (p : UePacket) : Type 0 where
  pub flags : p.ses.flags < 2 ^ 8
  pub msn : p.ses.msn < 2 ^ 32
  pub txn_id : p.ses.txn_id < 2 ^ 32
  pub dst_endpoint : p.ses.dst_endpoint < 2 ^ 32
  pub ses_reserved : p.ses.reserved < 2 ^ 16
  pub reserved8 : p.pds.reserved8 < 2 ^ 8
  pub psn : p.pds.psn < 2 ^ 32
  pub dst_pdc_id : p.pds.dst_pdc_id < 2 ^ 32
  pub pds_reserved : p.pds.reserved < 2 ^ 16
  pub pdc_reserved : p.pdc.reserved < 2 ^ 16

ses_fits :
    (h : SesHeader) {b : Bytes}
    → pack_ses h ≡ ok b
    → (h.flags < 2 ^ 8)
      × (h.msn < 2 ^ 32)
      × (h.txn_id < 2 ^ 32)
      × (h.dst_endpoint < 2 ^ 32)
      × (h.reserved < 2 ^ 16)
      × (length b ≡ 16)
unfolding pack_ses pack8 pack16 pack32 op_code
ses_fits h e = ground arith

pds_fits :
    (h : PdsHeader) {b : Bytes}
    → pack_pds h ≡ ok b
    → (h.reserved8 < 2 ^ 8)
      × (h.psn < 2 ^ 32)
      × (h.dst_pdc_id < 2 ^ 32)
      × (h.reserved < 2 ^ 16)
      × (length b ≡ 12)
unfolding pack_pds pack8 pack16 pack32 pdc_code
pds_fits h e = ground arith

pdc_fits : (h : PdcHeader) {b : Bytes} → pack_pdc h ≡ ok b → (h.reserved < 2 ^ 16) × (length b ≡ 4)
unfolding pack_pdc pack16
pdc_fits h e = ground arith

-- A packet that packs has every header field in range, and takes 32 bytes beside its payload.
pub pack-Fits :
    (p : UePacket) {b : Bytes} → pack p ≡ ok b → Fits p × (length b ≡ 32 + length p.payload)
unfolding pack
pack-Fits p h =
    let (ses, hs, h1) = >>=-eq-ok (pack_ses p.ses) _ h in
    let (pds, hp, h2) = >>=-eq-ok (pack_pds p.pds) _ h1 in
    let (pdc, hc, h3) = >>=-eq-ok (pack_pdc p.pdc) _ h2 in
    ground (
      arith,
      ses_fits p.ses hs,
      pds_fits p.pds hp,
      pdc_fits p.pdc hc,
      length-append ses (pds ++ (pdc ++ p.payload)),
      length-append pds (pdc ++ p.payload),
      length-append pdc p.payload,
    )

ses_packs :
    (h : SesHeader)
    → (h.flags < 2 ^ 8)
    → (h.msn < 2 ^ 32)
    → (h.txn_id < 2 ^ 32)
    → (h.dst_endpoint < 2 ^ 32)
    → (h.reserved < 2 ^ 16)
    → succeeds (pack_ses h) ≡ true
unfolding pack_ses pack8 pack16 pack32 op_code
ses_packs h f m t d r = ground arith

pds_packs :
    (h : PdsHeader)
    → (h.reserved8 < 2 ^ 8)
    → (h.psn < 2 ^ 32)
    → (h.dst_pdc_id < 2 ^ 32)
    → (h.reserved < 2 ^ 16)
    → succeeds (pack_pds h) ≡ true
unfolding pack_pds pack8 pack16 pack32 pdc_code
pds_packs h f m t d = ground arith

pdc_packs : (h : PdcHeader) → (h.reserved < 2 ^ 16) → succeeds (pack_pdc h) ≡ true
unfolding pack_pdc pack16
pdc_packs h f = ground arith

Fits-pack : (p : UePacket) → Fits p → succeeds (pack p) ≡ true
unfolding pack
Fits-pack p f = ground (arith, ses_packs p.ses, pds_packs p.pds, pdc_packs p.pdc)

-- A packet packs exactly when every header field is in range.
pub pack_iff-Fits : (p : UePacket) → (succeeds (pack p) ≡ true) ↔ Fits p
pack_iff-Fits p =
    (λ h. let (b, packed) = ok_value (pack p) h in (pack-Fits p packed).0, λ f. Fits-pack p f)
