-- ===== src/Routes/Best/Choice.antt =====
-- The chosen rule is that of the most preferred matching pattern, in whatever order the map is
-- walked.
use mathlib.Core.Path.{subst}
use geruest.Prelude.{
  ◌≡◌, refl, sym, ap, ◌∙◌, ◌⊎◌, inl, inr, ◌↔◌, true, false, ◌&&◌, ◌||◌, not, List, [], ◌∷◌, Option,
  none, some, Text, length, ltb, ◌==◌, if◌then◌else◌, Bool-cases, arith,
}
use geruest.Wildcard.{matches_wildcard_pattern}
use geruest.Routes.Best.{Best, nothing, text_lt, consider, consider_all, find_best_wildcard}
use geruest.Routes.Best.Order.{Beats, Beats-trans, Beats-asymm, Beats-total}

module _ {V : Type 0} where
  -- An entry of a map.
  abbrev pub Has : Text → V → List (Text × V) → Type 0
  Has q w [] = ⊥
  Has q w ((p, v) ∷ routes) = ((p ≡ q) × (v ≡ w)) ⊎ Has q w routes

  -- `p` is preferred to every pattern of the map that matches.
  pub record IsBest (routes : List (Text × V)) (path p : Text) (v : V) : Type 0 where
    pub entry : Has p v routes
    pub matching : matches_wildcard_pattern p path ≡ true
    pub preferred :
        (q : Text) (w : V)
        → Has q w routes
        → matches_wildcard_pattern q path ≡ true
        → (p ≡ q) ⊎ Beats p q

  -- The three variables of the loop as the entry that they hold.
  embed : Option (Text × V) → Best V
  embed none = nothing
  embed (some (p, v)) = record {
    best_pattern_length = length p;
    best_pattern = some p;
    best_match = some v;
  }

  pick : Option (Text × V) → Text → V → Option (Text × V)
  pick none p v = some (p, v)
  pick (some (q, w)) p v =
      if ltb (length q) (length p) || (length p == length q && text_lt p q)
      then some (p, v)
      else some (q, w)

  pick_all : Text → Option (Text × V) → List (Text × V) → Option (Text × V)
  pick_all path o [] = o
  pick_all path o ((p, v) ∷ routes) =
      pick_all path (if not (matches_wildcard_pattern p path) then o else pick o p v) routes

  consider-embed :
      (o : Option (Text × V)) (p : Text) (v : V) → consider (embed o) p v ≡ embed (pick o p v)
  unfolding consider embed pick
  consider-embed none p v = refl
  consider-embed (some (q, w)) p v = ground arith

  consider_all-embed :
      (path : Text) (o : Option (Text × V)) (routes : List (Text × V))
      → consider_all path (embed o) routes ≡ embed (pick_all path o routes)
  unfolding consider_all pick_all
  consider_all-embed path o [] = refl
  consider_all-embed path o ((p, v) ∷ routes) =
      elim (Bool-cases (matches_wildcard_pattern p path)) [
        | inl hit ↦ rw (hit, consider-embed o p v) (consider_all-embed path (pick o p v) routes)
        | inr miss ↦ rw miss (consider_all-embed path o routes)
      ]

  -- The entry at hand is preferred to `q`, or has it.
  abbrev Covers : Option (Text × V) → Text → Type 0
  Covers none q = ⊥
  Covers (some (p, v)) q = (p ≡ q) ⊎ Beats p q

  pick-Covers_new : (o : Option (Text × V)) (p : Text) (v : V) → Covers (pick o p v) p
  unfolding pick
  pick-Covers_new none p v = inl refl
  pick-Covers_new (some (q, w)) p v =
      elim (Bool-cases (ltb (length q) (length p) || (length p == length q && text_lt p q))) [
        | inl e ↦ rw e (inl refl)
        | inr e ↦ rw e (Beats-total q p e)
      ]

  pick-Covers_old :
      (o : Option (Text × V)) (p : Text) (v : V) (r : Text) → Covers o r → Covers (pick o p v) r
  unfolding pick
  pick-Covers_old none p v r h = absurd h
  pick-Covers_old (some (q, w)) p v r h =
      elim (Bool-cases (ltb (length q) (length p) || (length p == length q && text_lt p q))) [
        | inl e ↦ rw e (ground (arith, Beats-trans p q r (ground arith)))
        | inr e ↦ rw e h
      ]

  pick_all-Covers_old :
      (path : Text) (o : Option (Text × V)) (routes : List (Text × V)) (r : Text)
      → Covers o r
      → Covers (pick_all path o routes) r
  unfolding pick_all
  pick_all-Covers_old path o [] r h = h
  pick_all-Covers_old path o ((p, v) ∷ routes) r h =
      elim (Bool-cases (matches_wildcard_pattern p path)) [
        | inl hit ↦
            rw hit (pick_all-Covers_old path (pick o p v) routes r (pick-Covers_old o p v r h))
        | inr miss ↦ rw miss (pick_all-Covers_old path o routes r h)
      ]

  pick_all-Covers_new :
      (path : Text) (o : Option (Text × V)) (routes : List (Text × V)) (q : Text) (w : V)
      → Has q w routes
      → matches_wildcard_pattern q path ≡ true
      → Covers (pick_all path o routes) q
  unfolding pick_all
  pick_all-Covers_new path o [] q w h k = absurd h
  pick_all-Covers_new path o ((p, v) ∷ routes) q w (inl (e, e')) k =
      rw (e, k) (pick_all-Covers_old path (pick o q v) routes q (pick-Covers_new o q v))
  pick_all-Covers_new path o ((p, v) ∷ routes) q w (inr h) k =
      pick_all-Covers_new path (if not (matches_wildcard_pattern p path) then o else pick o p v)
        routes q w h k

  abbrev From : Text → List (Text × V) → Option (Text × V) → Type 0
  From path routes none = ⊥
  From path routes (some (p, v)) = Has p v routes × (matches_wildcard_pattern p path ≡ true)

  From-cons :
      (path p : Text) (v : V) (routes : List (Text × V)) (o : Option (Text × V))
      → From path routes o
      → From path ((p, v) ∷ routes) o
  From-cons path p v routes none h = h
  From-cons path p v routes (some (q, w)) (h, k) = (inr h, k)

  pick-cases :
      (o : Option (Text × V)) (p : Text) (v : V) → (pick o p v ≡ o) ⊎ (pick o p v ≡ some (p, v))
  unfolding pick
  pick-cases none p v = inr refl
  pick-cases (some (q, w)) p v = ground arith

  pick_all-cases :
      (path : Text) (o : Option (Text × V)) (routes : List (Text × V))
      → (pick_all path o routes ≡ o) ⊎ From path routes (pick_all path o routes)
  unfolding pick_all
  pick_all-cases path o [] = inl refl
  pick_all-cases path o ((p, v) ∷ routes) = elim (Bool-cases (matches_wildcard_pattern p path)) [
    | inl hit ↦ rw hit (elim (pick_all-cases path (pick o p v) routes) [
      | inl e ↦ elim (pick-cases o p v) [
        | inl e' ↦ inl (e ∙ e')
        | inr e' ↦ inr (subst (From path ((p, v) ∷ routes)) (sym (e ∙ e')) (inl (refl, refl), hit))
      ]
      | inr f ↦ inr (From-cons path p v routes (pick_all path (pick o p v) routes) f)
    ])
    | inr miss ↦ rw miss (elim (pick_all-cases path o routes) [
      | inl e ↦ inl e
      | inr f ↦ inr (From-cons path p v routes (pick_all path o routes) f)
    ])
  ]

  find-pick_all :
      (routes : List (Text × V)) (path : Text)
      → find_best_wildcard routes path ≡ (embed (pick_all path none routes)).best_match
  unfolding find_best_wildcard embed
  find-pick_all routes path =
      ap (λ (b : Best V). b.best_match) (consider_all-embed path none routes)

  -- Either no pattern of the map matches the path and nothing is found, or the rule found is
  -- that of a matching pattern which is preferred to every other one.
  pub find_best_wildcard_cases :
      (routes : List (Text × V)) (path : Text)
      → ((find_best_wildcard routes path ≡ none)
          × ((q : Text) (w : V) → Has q w routes → matches_wildcard_pattern q path ≡ false))
        ⊎ ((p : Text) × (v : V) × (find_best_wildcard routes path ≡ some v)
            × IsBest routes path p v)
  find_best_wildcard_cases routes path = rw find-pick_all (
      split (pick_all path none routes) (pick_all-cases path none routes)
        (pick_all-Covers_new path none routes))
    where
      split :
          (o : Option (Text × V))
          → (o ≡ none) ⊎ From path routes o
          → ((q : Text) (w : V)
              → Has q w routes
              → matches_wildcard_pattern q path ≡ true
              → Covers o q)
          → (((embed o).best_match ≡ none)
              × ((q : Text) (w : V) → Has q w routes → matches_wildcard_pattern q path ≡ false))
            ⊎ ((p : Text) × (v : V) × ((embed o).best_match ≡ some v) × IsBest routes path p v)
      split none f c = inl (
        unfold embed in refl,
        λ q w h. elim (Bool-cases (matches_wildcard_pattern q path)) [
          | inl hit ↦ absurd (c q w h hit)
          | inr miss ↦ miss
        ],
      )
      split (some (p, v)) (inl e) c = cc
      split (some (p, v)) (inr (h, k)) c =
          inr (p, v, unfold embed in refl, record { entry = h; matching = k; preferred = c })

  -- Two lists hold the same entries, in any order.
  abbrev pub SameEntries : List (Text × V) → List (Text × V) → Type 0
  SameEntries m m' = (q : Text) (w : V) → Has q w m ↔ Has q w m'

  -- A key has one value.
  abbrev pub IsMap : List (Text × V) → Type 0
  IsMap m = (q : Text) (v w : V) → Has q v m → Has q w m → v ≡ w

  IsBest-unique :
      (m m' : List (Text × V)) (path p p' : Text) (v v' : V)
      → SameEntries m m'
      → IsMap m
      → IsBest m path p v
      → IsBest m' path p' v'
      → v ≡ v'
  IsBest-unique m m' path p p' v v' same map b b' =
      let there : Has p' v' m = (same p' v').1 b'.entry in
      elim (b.preferred p' v' there b'.matching) [
        | inl e ↦ map p v v' b.entry (subst (λ q. Has q v' m) (sym e) there)
        | inr beats ↦ elim (b'.preferred p v ((same p v).0 b.entry) b.matching) [
          | inl e ↦ map p v v' b.entry (subst (λ q. Has q v' m) e there)
          | inr beaten ↦ absurd (Beats-asymm p p' beats beaten)
        ]
      ]

  -- What is found does not depend on the order in which the map is walked.
  pub find_best_wildcard_order :
      (m m' : List (Text × V)) (path : Text)
      → SameEntries m m'
      → IsMap m
      → find_best_wildcard m path ≡ find_best_wildcard m' path
  find_best_wildcard_order m m' path same map = elim (find_best_wildcard_cases m path) [
    | inl (e, no_match) ↦ elim (find_best_wildcard_cases m' path) [
      | inl (e', _) ↦ e ∙ sym e'
      | inr (p', v', e', b') ↦ cc (no_match p' v' ((same p' v').1 b'.entry), b'.matching)
    ]
    | inr (p, v, e, b) ↦ elim (find_best_wildcard_cases m' path) [
      | inl (e', no_match) ↦ cc (no_match p v ((same p v).0 b.entry), b.matching)
      | inr (p', v', e', b') ↦
          e ∙ ap some (IsBest-unique m m' path p p' v v' same map b b') ∙ sym e'
    ]
  ]
