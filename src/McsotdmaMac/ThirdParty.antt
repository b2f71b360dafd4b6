-- ===== src/McsotdmaMac/ThirdParty.antt =====
-- MCSOTDMA_Mac.cpp: the third-party links of a user, by the pairs of their users.
use ldacs_mcsotdma.Prelude.{
  ◌≡◌, ◌≢◌, ◌⊎◌, refl, sym, ap, subst, ◌∙◌, inl, inr, Bool, true, false, ◌&&◌, ◌==◌, ltb, List, [],
  ◌∷◌, Option, none, some, arith, Bool-cases, if◌then◌else◌,
}
use ldacs_mcsotdma.Reservation.{MacId}

is_same : (a b c d : MacId) → ((a == c) && (b == d)) ≡ true → (a ≡ c) × (b ≡ d)
is_same a b c d e = ground arith

not_swapped :
    (a b c d : MacId) → c ≢ d → ((a == c) && (b == d)) ≡ true → ((a == d) && (b == c)) ≡ false
not_swapped a b c d ne e = ground arith

self_at : (a b : MacId) → ((a == a) && (b == b)) ≡ true
self_at a b = ground arith

equal : (a b : MacId) → (a == b) ≡ true → a ≡ b
equal a b e = ground arith

unequal : (a b : MacId) → (a == b) ≡ false → a ≢ b
unequal a b e = ground arith

-- An entry of `third_party_links`.
pub record LinkEntry (L : Type 0) : Type 0 where
  pub id1 : MacId
  pub id2 : MacId
  pub link : L

module _ {L : Type 0} where
  abbrev is_at : MacId → MacId → LinkEntry L → Bool
  is_at id1 id2 e = (e.id1 == id1) && (e.id2 == id2)

  unfoldable pub find_link : MacId → MacId → List (LinkEntry L) → Option L
  find_link id1 id2 [] = none
  find_link id1 id2 (e ∷ es) =
      let rest = find_link id1 id2 es in if is_at id1 id2 e then some e.link else rest

  abbrev comes_before : MacId → MacId → LinkEntry L → Bool
  comes_before id1 id2 e = if id1 == e.id1 then ltb id2 e.id2 else ltb id1 e.id1

  -- `emplace` of a pair that is not there; the map is ordered by the pairs.
  unfoldable pub emplace_link : MacId → MacId → L → List (LinkEntry L) → List (LinkEntry L)
  emplace_link id1 id2 link [] = record { id1 = id1; id2 = id2; link = link } ∷ []
  emplace_link id1 id2 link (e ∷ es) =
      let rest = emplace_link id1 id2 link es in
      if comes_before id1 id2 e
      then record { id1 = id1; id2 = id2; link = link } ∷ e ∷ es
      else e ∷ rest

  -- Either order of the two users, and then none.
  abbrev either : Option L → Option L → Option L
  either none other = other
  either (some link) other = some link

  abbrev pub find_either : MacId → MacId → List (LinkEntry L) → Option L
  find_either id1 id2 es = either (find_link id1 id2 es) (find_link id2 id1 es)

  -- `getThirdPartyLink`: the link of two users, in either order, which is made if there is none.
  unfoldable pub get_third_party_link :
      (MacId → MacId → L) → MacId → MacId → List (LinkEntry L) → L × List (LinkEntry L)
  unfolding find_link emplace_link
  get_third_party_link new id1 id2 es = elim (find_either id1 id2 es) [
    | some link ↦ (link, es)
    | none ↦ (new id1 id2, emplace_link id1 id2 (new id1 id2) es)
  ]

  -- No two users have a link in both orders.
  abbrev pub IsPaired : List (LinkEntry L) → Type 0
  IsPaired es =
      (id1 id2 : MacId) → id1 ≢ id2 → (find_link id1 id2 es ≡ none) ⊎ (find_link id2 id1 es ≡ none)

  find_link-emplace_self :
      (a b : MacId) (l : L) (es : List (LinkEntry L))
      → find_link a b es ≡ none
      → find_link a b (emplace_link a b l es) ≡ some l
  unfolding find_link emplace_link
  find_link-emplace_self a b l [] e = ap (λ t. if t then some l else none) (self_at a b)
  find_link-emplace_self a b l (x ∷ xs) e = elim (Bool-cases (comes_before a b x)) [
    | inl first ↦ rw (first, self_at a b) refl
    | inr later ↦ elim (Bool-cases (is_at a b x)) [
      | inl here ↦ cc (rw here at e)
      | inr there ↦ rw (later, there) (find_link-emplace_self a b l xs (rw there at e))
    ]
  ]

  find_link-emplace_other :
      (a b c d : MacId) (l : L) (es : List (LinkEntry L))
      → ((a == c) && (b == d)) ≡ false
      → find_link c d (emplace_link a b l es) ≡ find_link c d es
  unfolding find_link emplace_link
  find_link-emplace_other a b c d l [] ne = rw ne refl
  find_link-emplace_other a b c d l (x ∷ xs) ne = elim (Bool-cases (comes_before a b x)) [
    | inl first ↦ rw (first, ne) refl
    | inr later ↦
        rw later (
          ap (λ o. if is_at c d x then some x.link else o)
            (find_link-emplace_other a b c d l xs ne))
  ]

  either_comm : (x y : Option L) → (x ≡ none) ⊎ (y ≡ none) → either x y ≡ either y x
  either_comm none none h = refl
  either_comm none (some l) h = refl
  either_comm (some l) none h = refl
  either_comm (some l) (some k) (inl e) = cc e
  either_comm (some l) (some k) (inr e) = cc e

  find_either_comm :
      (a b : MacId) (es : List (LinkEntry L))
      → IsPaired es
      → find_either a b es ≡ find_either b a es
  find_either_comm a b es paired = elim (Bool-cases (a == b)) [
    | inl same ↦ subst (λ c. find_either a c es ≡ find_either c a es) (equal a b same) refl
    | inr ne ↦ either_comm _ _ (paired a b (unequal a b ne))
  ]

  both_none : (x y : Option L) → either x y ≡ none → (x ≡ none) × (y ≡ none)
  both_none none none e = (refl, refl)
  both_none none (some l) e = cc e
  both_none (some l) y e = cc e

  get_found :
      (new : MacId → MacId → L) (a b : MacId) (es : List (LinkEntry L)) (l : L)
      → find_either a b es ≡ some l
      → get_third_party_link new a b es ≡ (l, es)
  unfolding get_third_party_link
  get_found new a b es l e =
      ap
        (λ o. elim o as (λ _. L × List (LinkEntry L)) [
          | some link ↦ (link, es)
          | none ↦ (new a b, emplace_link a b (new a b) es)
        ])
        e

  get_made :
      (new : MacId → MacId → L) (a b : MacId) (es : List (LinkEntry L))
      → find_either a b es ≡ none
      → get_third_party_link new a b es ≡ (new a b, emplace_link a b (new a b) es)
  unfolding get_third_party_link
  get_made new a b es e =
      ap
        (λ o. elim o as (λ _. L × List (LinkEntry L)) [
          | some link ↦ (link, es)
          | none ↦ (new a b, emplace_link a b (new a b) es)
        ])
        e

  emplace-IsPaired :
      (a b : MacId) (l : L) (es : List (LinkEntry L))
      → IsPaired es
      → find_either a b es ≡ none
      → IsPaired (emplace_link a b l es)
  emplace-IsPaired a b l es paired e c d ne =
      let (ab, ba) = both_none _ _ e in
      elim (Bool-cases ((a == c) && (b == d))) [
        | inl at_cd ↦
            let (ac, bd) = is_same a b c d at_cd in
            inr (
              find_link-emplace_other a b d c l es (not_swapped a b c d ne at_cd)
              ∙ ap (λ x. find_link x c es) (sym bd)
              ∙ ap (λ x. find_link b x es) (sym ac)
              ∙ ba)
        | inr not_cd ↦ elim (Bool-cases ((a == d) && (b == c))) [
          | inl at_dc ↦
              let (ad, bc) = is_same a b d c at_dc in
              inl (
                find_link-emplace_other a b c d l es not_cd
                ∙ ap (λ x. find_link x d es) (sym bc)
                ∙ ap (λ x. find_link b x es) (sym ad)
                ∙ ba)
          | inr not_dc ↦ elim (paired c d ne) [
            | inl n ↦ inl (find_link-emplace_other a b c d l es not_cd ∙ n)
            | inr n ↦ inr (find_link-emplace_other a b d c l es not_dc ∙ n)
          ]
        ]
      ]

  -- What a lookup of two users comes to.
  pub record IsLookedUp (new : MacId → MacId → L) (a b : MacId) (es : List (LinkEntry L)) (l : L)
      (es' : List (LinkEntry L)) : Type 0 where
    pub paired : IsPaired es'
    pub again : get_third_party_link new a b es' ≡ (l, es')
    pub swapped : get_third_party_link new b a es' ≡ (l, es')
    pub others :
        (c d : MacId)
        → ((a == c) && (b == d)) ≡ false
        → ((a == d) && (b == c)) ≡ false
        → find_either c d es' ≡ find_either c d es

  looked_up :
      (new : MacId → MacId → L) (a b : MacId) (es es' : List (LinkEntry L)) (l : L)
      → IsPaired es'
      → find_either a b es' ≡ some l
      → ((c d : MacId)
          → ((a == c) && (b == d)) ≡ false
          → ((a == d) && (b == c)) ≡ false
          → find_either c d es' ≡ find_either c d es)
      → IsLookedUp new a b es l es'
  looked_up new a b es es' l paired e others = record {
    paired = paired;
    again = get_found new a b es' l e;
    swapped = get_found new b a es' l (sym (find_either_comm a b es' paired) ∙ e);
    others = others;
  }

  -- Where no two users have a link in both orders: the lookup of two users keeps that so, every
  -- later lookup of the two, in either order, gives the same link and adds none, and the links of
  -- all other pairs are as before.
  pub get_third_party_link-IsLookedUp :
      (new : MacId → MacId → L) (a b : MacId) (es : List (LinkEntry L))
      → IsPaired es
      → IsLookedUp new a b es
          (get_third_party_link new a b es).0
          (get_third_party_link new a b es).1
  get_third_party_link-IsLookedUp new a b es paired = cases (find_either a b es) refl
    where
      cases :
          (o : Option L)
          → find_either a b es ≡ o
          → IsLookedUp new a b es
              (get_third_party_link new a b es).0
              (get_third_party_link new a b es).1
      cases (some l) e =
          subst (λ (p : L × List (LinkEntry L)). IsLookedUp new a b es p.0 p.1)
            (sym (get_found new a b es l e)) (looked_up new a b es es l paired e (λ c d x y. refl))
      cases none e =
          subst (λ (p : L × List (LinkEntry L)). IsLookedUp new a b es p.0 p.1)
            (sym (get_made new a b es e))
            (looked_up new a b es (emplace_link a b (new a b) es) (new a b)
              (emplace-IsPaired a b (new a b) es paired e)
              (ap (λ o. either o (find_link b a (emplace_link a b (new a b) es)))
                (find_link-emplace_self a b (new a b) es (both_none _ _ e).0))
              (λ c d x y.
                ap (λ o. either o (find_link d c (emplace_link a b (new a b) es)))
                  (find_link-emplace_other a b c d (new a b) es x)
                ∙ ap (either (find_link c d es)) (find_link-emplace_other a b d c (new a b) es y)))
