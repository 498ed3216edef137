-- ===== src/Base/CacheManager.antt =====
-- The cache manager (@nestjs/cache-manager), which the repository does not implement. Entries may
-- expire at any time, and a call may throw; what `get` answers is what was set last.
use mathlib.Core.Path.{◌≡◌, refl}
use mathlib.Core.Bool.{not}
use mathlib.Core.Option.{Option, none, some}
use mathlib.Core.List.{List, [], ◌∷◌}
use Prim.Native.Nat.{ℕ}
use native.Mathlib.Omega.{arith}
use mathlib.Core.Logic.{inl, inr}
use trust_up_api.Base.Tests.{◌==◌, if◌then◌else◌, Bool-cases}
use trust_up_api.Base.Lists.{keep, All}
use trust_up_api.Base.Outcome.{Result, ok, err}

pub data CacheError : Type 0 where
  unreachable : CacheError

module _ {V : Type 0} where
  -- Association lists by key, the newest entry first.
  abbrev pub lookup : ℕ → List (ℕ × V) → Option V
  lookup k [] = none
  lookup k ((j, v) ∷ entries) = if j == k then some v else lookup k entries

  abbrev pub without : ℕ → List (ℕ × V) → List (ℕ × V)
  without k entries = keep (λ entry. not (entry.0 == k)) entries

  abbrev pub Dels : ℕ → List (ℕ × V) → Result CacheError (List (ℕ × V)) → Type 0
  Dels k entries (ok after) = after ≡ without k entries
  Dels k entries (err e) = Unit

  abbrev pub CachedAs : Option V → Result CacheError (Option V) → Type 0
  CachedAs entry (ok none) = Unit
  CachedAs entry (ok (some v)) = entry ≡ some v
  CachedAs entry (err e) = Unit

  abbrev pub Sets : ℕ → V → List (ℕ × V) → Result CacheError (List (ℕ × V)) → Type 0
  Sets k v entries (ok after) = after ≡ (k, v) ∷ entries
  Sets k v entries (err e) = Unit

pub record Cache (V : Type 0) : Type 0 where
  pub get : ℕ → List (ℕ × V) → Result CacheError (Option V)
  pub set : ℕ → V → List (ℕ × V) → Result CacheError (List (ℕ × V))
  pub del : ℕ → List (ℕ × V) → Result CacheError (List (ℕ × V))
  pub gets_entry : (k : ℕ) (entries : List (ℕ × V)) → CachedAs (lookup k entries) (get k entries)
  pub sets_entry : (k : ℕ) (v : V) (entries : List (ℕ × V)) → Sets k v entries (set k v entries)
  pub dels_entry : (k : ℕ) (entries : List (ℕ × V)) → Dels k entries (del k entries)

module _ {V : Type 0} (c : Cache V) where
  pub get-some :
      (k : ℕ) (entries : List (ℕ × V)) (v : V)
      → c.get k entries ≡ ok (some v)
      → lookup k entries ≡ some v
  get-some k entries v h = let law = c.gets_entry k entries in rw h at law

  pub set-ok :
      (k : ℕ) (v : V) (entries after : List (ℕ × V))
      → c.set k v entries ≡ ok after
      → after ≡ (k, v) ∷ entries
  set-ok k v entries after h = let law = c.sets_entry k v entries in rw h at law

module _ {V : Type 0} (c : Cache V) where
  pub del-ok :
      (k : ℕ) (entries after : List (ℕ × V))
      → c.del k entries ≡ ok after
      → after ≡ without k entries
  del-ok k entries after h = let law = c.dels_entry k entries in rw h at law

-- What holds of every entry holds of the one that is found.
pub All-lookup {κ} :
    {V : Type 0} (P : ℕ × V → Type κ) (k : ℕ) (entries : List (ℕ × V)) {v : V}
    → All P entries
    → lookup k entries ≡ some v
    → P (k, v)
All-lookup P k [] h e = cc
All-lookup P k ((j, w) ∷ entries) {v} h e = elim (Bool-cases (j == k)) [
  | inl hit ↦
      let same : w ≡ v = ground arith in let key : j ≡ k = ground arith in rw (← same, ← key) h.0
  | inr miss ↦ All-lookup P k entries h.1 (ground arith)
]

-- A cache that forgets nothing and is always reachable.
module _ {V : Type 0} where
  pub cached_refl : (entry : Option V) → CachedAs entry (ok entry)
  cached_refl none = tt
  cached_refl (some v) = refl

  abbrev pub steady : Cache V
  steady = record {
    get = λ k entries. ok (lookup k entries);
    set = λ k v entries. ok ((k, v) ∷ entries);
    del = λ k entries. ok (without k entries);
    gets_entry = λ k entries. cached_refl (lookup k entries);
    sets_entry = λ k v entries. refl;
    dels_entry = λ k entries. refl;
  }
