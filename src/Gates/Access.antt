-- ===== src/Gates/Access.antt =====
-- Which gate guards a path.
use geruest.Prelude.{
  ◌≡◌, ◌≢◌, refl, sym, ap, inl, inr, false, not, List, [], ◌∷◌, ◌++◌, Option, none, some, Text,
  contains, has_value, if◌then◌else◌, arith,
}
use geruest.Prelude.Assoc.{lookup, lookup-insert_self, lookup-erase_self}
use geruest.Language.{LanguageConfig}
use geruest.Paths.{canonical_request_path}
use geruest.Routes.Best.{Best, nothing, consider, consider_all, find_best_wildcard}
use geruest.Routes.Best.Choice.{Has, find_best_wildcard_cases}
use geruest.Gates.{
  GateRegistry, PageGateRule, async, store_gate_rule, resolve_all, page_of_sync, page_of_async,
  find_best_wildcard_gate, find_resolved_gate_impl, add_async_page_gate, remove_page_gate,
  resolve_exact_page_gate, find_best_wildcard_page_gate, find_resolved_page_gate,
}
use geruest.Wildcard.{star, matches_wildcard_pattern}

module _ {V : Type 0} where
  consider_all-append :
      (path : Text) (best : Best V) (m m' : List (Text × V))
      → consider_all path best (m ++ m') ≡ consider_all path (consider_all path best m) m'
  unfolding consider_all
  consider_all-append path best [] m' = refl
  consider_all-append path best ((p, v) ∷ m) m' =
      consider_all-append path
        (if not (matches_wildcard_pattern p path) then best else consider best p v) m m'

  Has-append_left : (q : Text) (w : V) (m m' : List (Text × V)) → Has q w m → Has q w (m ++ m')
  Has-append_left q w [] m' h = absurd h
  Has-append_left q w ((p, v) ∷ m) m' (inl h) = inl h
  Has-append_left q w ((p, v) ∷ m) m' (inr h) = inr (Has-append_left q w m m' h)

  Has-append_right : (q : Text) (w : V) (m m' : List (Text × V)) → Has q w m' → Has q w (m ++ m')
  Has-append_right q w [] m' h = h
  Has-append_right q w ((p, v) ∷ m) m' h = inr (Has-append_right q w m m' h)

module _ {V W : Type 0} where
  Has-resolve_all :
      (f : V → W) (q : Text) (v : V) (m : List (Text × V))
      → Has q v m
      → Has q (f v) (resolve_all f m)
  unfolding resolve_all
  Has-resolve_all f q v [] h = absurd h
  Has-resolve_all f q v ((p, w) ∷ m) (inl (e, e')) = inl (e, ap f e')
  Has-resolve_all f q v ((p, w) ∷ m) (inr h) = inr (Has-resolve_all f q v m h)

module _ {V W R : Type 0} where
  -- The two loops choose as one loop over all gates does.
  pub find_best_wildcard_gate_lem :
      (f : V → R) (g : W → R) (async_wild : List (Text × V)) (sync_wild : List (Text × W))
      (path : Text)
      → find_best_wildcard_gate f g async_wild sync_wild path
        ≡ find_best_wildcard (resolve_all f async_wild ++ resolve_all g sync_wild) path
  unfolding find_best_wildcard_gate find_best_wildcard
  find_best_wildcard_gate_lem f g async_wild sync_wild path =
      ap (λ (b : Best R). b.best_match)
        (sym
          (consider_all-append path nothing (resolve_all f async_wild) (resolve_all g sync_wild)))

  -- No gate is found only where no pattern matches.
  find_best_wildcard_gate-none :
      (f : V → R) (g : W → R) (async_wild : List (Text × V)) (sync_wild : List (Text × W))
      (path : Text)
      → find_best_wildcard_gate f g async_wild sync_wild path ≡ none
      → ((q : Text) (v : V) → Has q v async_wild → matches_wildcard_pattern q path ≡ false)
        × ((q : Text) (w : W) → Has q w sync_wild → matches_wildcard_pattern q path ≡ false)
  find_best_wildcard_gate-none f g async_wild sync_wild path e =
      elim (find_best_wildcard_cases (resolve_all f async_wild ++ resolve_all g sync_wild) path) [
        | inl (_, miss) ↦ (
          λ q v h. miss q (f v) (
              Has-append_left q (f v) (resolve_all f async_wild) (resolve_all g sync_wild)
                (Has-resolve_all f q v async_wild h)),
          λ q w h. miss q (g w) (
              Has-append_right q (g w) (resolve_all f async_wild) (resolve_all g sync_wild)
                (Has-resolve_all g q w sync_wild h)),
        )
        | inr (p, v, e', _) ↦ cc (find_best_wildcard_gate_lem f g async_wild sync_wild path)
      ]

module _ {R : Type 0} where
  find_resolved_gate_impl_exact :
      (languages : Option LanguageConfig) (exact best : Text → Option R) (path : Text) (gate : R)
      → exact (canonical_request_path path) ≡ some gate
      → find_resolved_gate_impl languages exact best path ≡ some gate
  unfolding find_resolved_gate_impl
  find_resolved_gate_impl_exact languages exact best path gate h = ground arith

  find_resolved_gate_impl-none :
      (languages : Option LanguageConfig) (exact best : Text → Option R) (path : Text)
      → find_resolved_gate_impl languages exact best path ≡ none
      → (exact (canonical_request_path path) ≡ none) × (best (canonical_request_path path) ≡ none)
  unfolding find_resolved_gate_impl
  find_resolved_gate_impl-none languages exact best path h = ground arith

module _ {S A : Type 0} where
  -- No gate guards the path by its own name or by a pattern.
  pub record IsOpenPage (registry : GateRegistry S A) (path : Text) : Type 0 where
    pub no_async : lookup path registry.async_page_gates ≡ none
    pub no_sync : lookup path registry.page_gates ≡ none
    pub no_wildcard_async :
        (q : Text) (rule : PageGateRule A)
        → Has q rule registry.wildcard_async_page_gates
        → matches_wildcard_pattern q path ≡ false
    pub no_wildcard_sync :
        (q : Text) (rule : PageGateRule S)
        → Has q rule registry.wildcard_page_gates
        → matches_wildcard_pattern q path ≡ false

  -- A request passes without a gate only if no gate of either kind is registered for its normal
  -- form, and no wildcard gate of either kind matches it.
  pub find_resolved_page_gate-none :
      (registry : GateRegistry S A) (path : Text)
      → find_resolved_page_gate registry path ≡ none
      → IsOpenPage registry (canonical_request_path path)
  unfolding find_resolved_page_gate find_best_wildcard_page_gate resolve_exact_page_gate
  find_resolved_page_gate-none registry path h =
      let (e, w) =
        find_resolved_gate_impl-none registry.languages (resolve_exact_page_gate registry)
          (find_best_wildcard_page_gate registry) path h in
      let (wa, ws) =
        find_best_wildcard_gate-none page_of_async page_of_sync registry.wildcard_async_page_gates
          registry.wildcard_page_gates (canonical_request_path path) w in
      record {
        no_async = ground arith;
        no_sync = ground arith;
        no_wildcard_async = wa;
        no_wildcard_sync = ws;
      }

  exact_gate :
      (registry : GateRegistry S A) (path canonical redirect_to : Text) (handler : A)
      → canonical ≡ path
      → lookup path registry.async_page_gates
        ≡ some (record { handler = handler; redirect_to = redirect_to })
      → resolve_exact_page_gate registry canonical
        ≡ some (record { handler = async handler; redirect_to = redirect_to })
  unfolding resolve_exact_page_gate page_of_async
  exact_gate registry path canonical redirect_to handler same h = rw same (ground arith)

  -- An asynchronous page gate that is added for a path guards every request with this normal form,
  -- whatever else is registered.
  find-add_async_page_gate :
      (registry : GateRegistry S A) (path request redirect_to : Text) (handler : A)
      → path ≢ []
      → contains star path ≡ false
      → canonical_request_path request ≡ path
      → find_resolved_page_gate
          (add_async_page_gate path (some handler) redirect_to registry).0
          request
        ≡ some (record { handler = async handler; redirect_to = redirect_to })
  unfolding find_resolved_page_gate add_async_page_gate store_gate_rule
  find-add_async_page_gate registry [] request redirect_to handler full plain same =
      absurd (full refl)
  find-add_async_page_gate registry (c ∷ path) request redirect_to handler full plain same =
      rw plain (
        find_resolved_gate_impl_exact registry.languages _ _ request
          (record { handler = async handler; redirect_to = redirect_to })
          (exact_gate _ (c ∷ path) (canonical_request_path request) redirect_to handler same (
            lookup-insert_self (c ∷ path) (record { handler = handler; redirect_to = redirect_to })
              registry.async_page_gates)))

  -- Removing the gates of a path without a star leaves none for it, and answers whether there was
  -- one.
  remove_page_gate_lem :
      (registry : GateRegistry S A) (path : Text)
      → contains star path ≡ false
      → (resolve_exact_page_gate (remove_page_gate path registry).0 path ≡ none)
        × ((remove_page_gate path registry).1 ≡ has_value (resolve_exact_page_gate registry path))
  unfolding remove_page_gate resolve_exact_page_gate
  remove_page_gate_lem registry path plain = (
    ground (
      arith,
      lookup-erase_self path registry.page_gates,
      lookup-erase_self path registry.async_page_gates,
    ),
    ground arith,
  )
