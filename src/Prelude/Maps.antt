-- ===== src/Prelude/Maps.antt =====
-- `std::map` with numbers for keys: the entries in the order of their keys.
use Prim.Native.Nat.{ℕ}
use mathlib.Core.Path.{◌≡◌, refl}
use mathlib.Core.Logic.{◌≢◌, inl, inr}
use mathlib.Core.Bool.{true, false}
use mathlib.Core.List.{List, [], ◌∷◌, map}
use mathlib.Core.Option.{Option, none, some}
use native.Mathlib.Omega.{arith}
use ldacs_mcsotdma.Prelude.Tests.{ltb, ◌==◌, if◌then◌else◌, Bool-cases}
use ldacs_mcsotdma.Prelude.Lists.{All}

pub record Entry {ℓ} (A : Type ℓ) : Type ℓ where
  pub key : ℕ
  pub value : A

pub differs : (a b : ℕ) → a ≢ b → (a == b) ≡ false
differs a b ne = ground arith

pub same : (a : ℕ) → (a == a) ≡ true
same a = ground arith

pub equal : (a b : ℕ) → (a == b) ≡ true → a ≡ b
equal a b e = ground arith

module _ {ℓ} {A : Type ℓ} where
  abbrev pub entry : ℕ → A → Entry A
  entry k v = record { key = k; value = v }

  unfoldable pub find : ℕ → List (Entry A) → Option A
  find k [] = none
  find k (e ∷ es) = if e.key == k then some e.value else find k es

  -- `map[k] = v`, and `insert` where the key is new.
  unfoldable pub put : ℕ → A → List (Entry A) → List (Entry A)
  put k v [] = entry k v ∷ []
  put k v (e ∷ es) =
      let rest = put k v es in
      if e.key == k then entry k v ∷ es else if ltb k e.key then entry k v ∷ e ∷ es else e ∷ rest

  unfoldable pub erase : ℕ → List (Entry A) → List (Entry A)
  erase k [] = []
  erase k (e ∷ es) = let rest = erase k es in if e.key == k then es else e ∷ rest

  abbrev pub keys : List (Entry A) → List ℕ
  keys es = map (λ (e : Entry A). e.key) es

  -- No key twice.
  abbrev pub IsMap : List (Entry A) → Type 0
  IsMap [] = Unit {0}
  IsMap (e ∷ es) = All (λ (d : Entry A). e.key ≢ d.key) es × IsMap es

  pub find-put_self : (k : ℕ) (v : A) (es : List (Entry A)) → find k (put k v es) ≡ some v
  unfolding find put
  find-put_self k v [] = rw (same k)
  find-put_self k v (e ∷ es) = elim (Bool-cases (e.key == k)) [
    | inl t ↦ rw (t, same k)
    | inr f ↦ elim (Bool-cases (ltb k e.key)) [
      | inl t ↦ rw (f, t, same k)
      | inr g ↦ rw (f, g, f) (find-put_self k v es)
    ]
  ]

  pub find-put_ne :
      (k j : ℕ) (v : A) (es : List (Entry A)) → k ≢ j → find j (put k v es) ≡ find j es
  unfolding find put
  find-put_ne k j v [] ne = rw (differs k j ne)
  find-put_ne k j v (e ∷ es) ne = elim (Bool-cases (e.key == k)) [
    | inl t ↦
        rw (t, differs k j ne, differs e.key j (λ s. ne (trans_eq k e.key j (equal e.key k t) s)))
    | inr f ↦ elim (Bool-cases (ltb k e.key)) [
      | inl t ↦ rw (f, t, differs k j ne)
      | inr g ↦
          rw (f, g)
            (elim (Bool-cases (e.key == j)) [
              | inl u ↦ rw u
              | inr w ↦ rw w (find-put_ne k j v es ne)
            ])
    ]
  ]
    where
      trans_eq : (k e j : ℕ) → e ≡ k → e ≡ j → k ≡ j
      trans_eq k e j p q = omega arith

  pub find-erase_ne : (k j : ℕ) (es : List (Entry A)) → k ≢ j → find j (erase k es) ≡ find j es
  unfolding find erase
  find-erase_ne k j [] ne = refl
  find-erase_ne k j (e ∷ es) ne = elim (Bool-cases (e.key == k)) [
    | inl t ↦ rw (t, differs e.key j (λ s. ne (trans_eq k e.key j (equal e.key k t) s)))
    | inr f ↦
        rw f
          (elim (Bool-cases (e.key == j)) [ inl u ↦ rw u | inr w ↦ rw w (find-erase_ne k j es ne) ])
  ]
    where
      trans_eq : (k e j : ℕ) → e ≡ k → e ≡ j → k ≡ j
      trans_eq k e j p q = omega arith

  -- A key that no entry has is not found.
  pub find-absent :
      (k : ℕ) (es : List (Entry A)) → All (λ (d : Entry A). k ≢ d.key) es → find k es ≡ none
  unfolding find
  find-absent k [] h = refl
  find-absent k (e ∷ es) h = rw (differs e.key k (λ s. h.0 (flip k e.key s))) (find-absent k es h.1)
    where
      flip : (k e : ℕ) → e ≡ k → k ≡ e
      flip k e p = omega arith
