-- ===== src/Base/Keys.antt =====
-- Maps whose keys are all different.
use mathlib.Core.Path.{◌≡◌, refl, subst}
use mathlib.Core.Logic.{ite}
use mathlib.Core.List.{[], ◌∷◌, ◌++◌}
use mathlib.Core.Option.{none, some}
use native.Mathlib.Omega.{arith}
use cal_spread_backend.Base.Lists.{remove, All}
use cal_spread_backend.Base.Maps.{Map, get, put, delete, keys, get-put, get-delete}

module _ {ℓ} {K V : Type ℓ} (dec : Discrete K) where
  abbrev pub Unique : Map K V → Type ℓ
  Unique [] = Unit
  Unique ((k, v) ∷ m) = (get dec k m ≡ none) × Unique m

  pub put_absent :
      (k : K) (v : V) (m : Map K V) → get dec k m ≡ none → put dec k v m ≡ m ++ (k, v) ∷ []
  unfolding get put
  put_absent k v [] h = refl
  put_absent k v ((j, w) ∷ m) h = ground (arith, put_absent k v m)

  pub delete_absent : (k : K) (m : Map K V) → get dec k m ≡ none → delete dec k m ≡ m
  unfolding get delete
  delete_absent k [] h = refl
  delete_absent k ((j, w) ∷ m) h = ground (arith, delete_absent k m)

  pub put-Unique : (k : K) (v : V) (m : Map K V) → Unique m → Unique (put dec k v m)
  unfolding put get
  put-Unique k v [] u = (refl, tt)
  put-Unique k v ((j, w) ∷ m) u = ground (arith, put-Unique k v m u.1, get-put dec k j v m)

  pub delete-Unique : (k : K) (m : Map K V) → Unique m → Unique (delete dec k m)
  unfolding delete
  delete-Unique k [] u = tt
  delete-Unique k ((j, w) ∷ m) u = ground (arith, delete-Unique k m u.1, get-delete dec k j m)

  pub keys-put_absent :
      (k : K) (v : V) (m : Map K V) → get dec k m ≡ none → keys (put dec k v m) ≡ keys m ++ k ∷ []
  unfolding get put
  keys-put_absent k v [] h = refl
  keys-put_absent k v ((j, w) ∷ m) h = ground (arith, keys-put_absent k v m)

  pub keys-delete : (k : K) (m : Map K V) → Unique m → keys (delete dec k m) ≡ remove dec k (keys m)
  unfolding delete remove
  keys-delete k [] u = refl
  keys-delete k ((j, w) ∷ m) u = ground (arith, keys-delete k m u.1, delete_absent j m u.0)

  pub put-All :
      (P : K × V → Type ℓ) (k : K) (v : V) (m : Map K V)
      → P (k, v)
      → All P m
      → All P (put dec k v m)
  unfolding put
  put-All P k v [] p h = (p, tt)
  put-All P k v ((j, w) ∷ m) p h =
      elim (dec j k) as (λ d. All P (ite d ((k, v) ∷ m) ((j, w) ∷ put dec k v m))) [
        | yes _ ↦ (p, h.1)
        | no _ ↦ (h.0, put-All P k v m p h.1)
      ]

  pub delete-All : (P : K × V → Type ℓ) (k : K) (m : Map K V) → All P m → All P (delete dec k m)
  unfolding delete
  delete-All P k [] h = tt
  delete-All P k ((j, w) ∷ m) h =
      elim (dec j k) as (λ d. All P (ite d (delete dec k m) ((j, w) ∷ delete dec k m))) [
        | yes _ ↦ delete-All P k m h.1
        | no _ ↦ (h.0, delete-All P k m h.1)
      ]

  pub All-get :
      (P : K × V → Type ℓ) (k : K) (v : V) (m : Map K V) → All P m → get dec k m ≡ some v → P (k, v)
  unfolding get
  All-get P k v [] h e = absurd (ground arith)
  All-get P k v ((j, w) ∷ m) h e = elim (dec j k) [
    | yes p ↦ subst P (ground arith) h.0
    | no p ↦ All-get P k v m h.1 (ground arith)
  ]

  pub get-middle :
      (k : K) (v : V) (m n : Map K V)
      → Unique (m ++ (k, v) ∷ n)
      → get dec k (m ++ (k, v) ∷ n) ≡ some v
  unfolding get
  get-middle k v [] n u = ground arith
  get-middle k v ((j, w) ∷ m) n u = ground (arith, get-middle k v m n u.1)

  pub delete-middle :
      (k : K) (v : V) (m n : Map K V)
      → Unique (m ++ (k, v) ∷ n)
      → delete dec k (m ++ (k, v) ∷ n) ≡ m ++ n
  unfolding delete
  delete-middle k v [] n u = ground (arith, delete_absent k n u.0)
  delete-middle k v ((j, w) ∷ m) n u =
      ground (arith, delete-middle k v m n u.1, get-middle k v m n u.1)
