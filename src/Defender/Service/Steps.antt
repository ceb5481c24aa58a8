-- ===== src/Defender/Service/Steps.antt =====
-- A relation of the states that is kept by every statement is kept by their sequences.
use k3df.Base.{
  ℕ, Bool, true, false, ◌≡◌, refl, Option, none, some, List, [], ◌∷◌, All, Result, ok, raised,
  Error,
}
use k3df.Defender.Service.{
  Service, Event, log, write_event, then_next, with_result, for_each, in_order,
}

module _ (R : Service → Service → Type 0) where
  -- Each run of `f` is in the relation.
  abbrev pub Steps : (Service → Service × Option Error) → Type 0
  Steps f = (s : Service) → R s (f s).0

  -- A call of `event` changes the events and the writes that are left.
  pub log-Steps :
      ((s : Service) (es : List (ℕ × Event)) (ws : List Bool)
        → (s.writes ≡ [] → ws ≡ [])
        → R s (record s { events = es; writes = ws }))
      → (e : Event) → Steps (log e)
  log-Steps change e s = by_writes s.writes refl
    where
      by_writes : (ws : List Bool) → s.writes ≡ ws → R s (write_event e ws s).0
      by_writes [] h = change s _ s.writes (λ q. q)
      by_writes (true ∷ ws) h = change s _ ws (λ q. cc)
      by_writes (false ∷ ws) h = change s s.events ws (λ q. cc)

  module _ (same : (s : Service) → R s s) (trans : (s t u : Service) → R s t → R t u → R s u) where
    pub then_next-Steps :
        (s : Service) (r : Service × Option Error) (next : Service → Service × Option Error)
        → R s r.0
        → Steps next
        → R s (then_next next r).0
    then_next-Steps s (t, none) next h f = trans s t (next t).0 h (f t)
    then_next-Steps s (t, some e) next h f = h

    pub with_result-Steps :
        {A : Type 0} (r : Result A) (next : A → Service → Service × Option Error) (s : Service)
        → ((a : A) → r ≡ ok a → R s (next a s).0)
        → R s (with_result r next s).0
    with_result-Steps (raised e) next s f = same s
    with_result-Steps (ok a) next s f = f a refl

    pub for_each-Steps :
        {A : Type 0} (f : A → Service → Service × Option Error) (xs : List A)
        → ((a : A) → Steps (f a))
        → Steps (for_each f xs)
    for_each-Steps f [] k s = same s
    for_each-Steps f (x ∷ xs) k s =
        then_next-Steps s (f x s) (for_each f xs) (k x s) (for_each-Steps f xs k)

    pub in_order-Steps :
        (fs : List (Service → Service × Option Error)) → All Steps fs → Steps (in_order fs)
    in_order-Steps [] k s = same s
    in_order-Steps (f ∷ fs) k s =
        then_next-Steps s (f s) (in_order fs) (k.0 s) (in_order-Steps fs k.1)
