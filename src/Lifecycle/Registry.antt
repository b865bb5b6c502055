-- ===== src/Lifecycle/Registry.antt =====
-- labtris_api/lifecycle.py: `try_allocate_ifname`, over the rows of the table ifname_registry, whose
-- primary key is the name: inserting a name that is there is an IntegrityError.
pub mod Unique
use labtris.Prelude.{text_eq}
use labtris.Naming.Device.{Kind, host_ifname}
use labtris.Prelude.{
  true, zero, suc, [], if◌then◌else◌, ◌||◌, false, ◌∷◌, ◌&&◌, List, ℕ, Bool, Text,
}
use labtris.Prelude.Result.{multiple_rows, internal, ok, err, Result}

pub record Row : Type 0 where
  pub host_ifname : Text
  pub kind : Kind
  pub owner_id : Text

unfoldable pub same_kind : Kind → Kind → Bool
same_kind Kind.tap Kind.tap = true
same_kind Kind.bridge Kind.bridge = true
same_kind Kind.veth Kind.veth = true
same_kind Kind.vxlan Kind.vxlan = true
same_kind _ _ = false

abbrev pub belongs : Kind → Text → Row → Bool
belongs kind owner row = text_eq row.owner_id owner && same_kind row.kind kind

-- the names of the rows of an owner and a kind
unfoldable pub rows_of : Kind → Text → List Row → List Text
unfolding same_kind
rows_of kind owner [] = []
rows_of kind owner (row ∷ rows) =
    let rest = rows_of kind owner rows in
    if belongs kind owner row then row.host_ifname ∷ rest else rest

unfoldable pub registered : Text → List Row → Bool
registered name [] = false
registered name (row ∷ rows) = text_eq row.host_ifname name || registered name rows

abbrev pub salts : ℕ
salts = 16

module _ (digest : Text → ℕ) (kind : Kind) (owner : Text) (hint : Text) where
  -- one attempt: the insertion is rolled back when the name is there
  abbrev pub attempt : Result Text → Result Text × List Row → List Row → Result Text × List Row
  attempt (err e) later rows = (err e, rows)
  attempt (ok name) later rows =
      if registered name rows
      then later
      else (ok name, record { host_ifname = name; kind = kind; owner_id = owner } ∷ rows)

  -- `n` salts, from `salt` on
  unfoldable pub allocate : ℕ → ℕ → List Row → Result Text × List Row
  unfolding registered
  allocate zero salt rows = (err internal, rows)
  allocate (suc n) salt rows =
      attempt (host_ifname digest kind owner salt hint) (allocate n (suc salt) rows) rows

  abbrev pub allocate_unless : List Text → List Row → Result Text × List Row
  allocate_unless [] rows = allocate salts 0 rows
  allocate_unless (name ∷ []) rows = (ok name, rows)
  allocate_unless (name ∷ _ ∷ _) rows = (err multiple_rows, rows)

  unfoldable pub try_allocate_ifname : List Row → Result Text × List Row
  unfolding rows_of
  try_allocate_ifname rows = allocate_unless (rows_of kind owner rows) rows
