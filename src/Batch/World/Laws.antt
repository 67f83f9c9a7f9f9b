-- ===== src/Batch/World/Laws.antt =====
-- What the cache's laws give at one key.
use text.Mathlib.TextPositions.{eq_refl}
use api_elrond_com.Common.{◌≡◌, String, none, some}
use api_elrond_com.Batch.World.{Cache, IsCache}

module _ {S V : Type 0} {c : Cache S V} (laws : IsCache c) where
  pub get-set_self : (k : String) (v : V) (s : S) → c.get k (c.set k v s) ≡ some v
  get-set_self k v s = rw (laws.get-set k k v s, eq_refl k)

  pub get-delete_self : (k : String) (s : S) → c.get k (c.delete k s) ≡ none
  get-delete_self k s = rw (laws.get-delete k k s, eq_refl k)
