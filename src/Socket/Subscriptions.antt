-- ===== src/Socket/Subscriptions.antt =====
-- Subscriptions to events: a set of names, whatever their case.
use dazeus_core.Base.{
  ◌≡◌, refl, sym, ◌∙◌, not, ◌&&◌, ◌||◌, [], ◌∷◌, ◌++◌, arith, Bool-cases, inl, inr,
}
use dazeus_core.Text.{Str, str_eq, str_eq_iff}
use dazeus_core.External.{Utils, UtilsLaws, Distinct, member-append, Distinct-concat}
use dazeus_core.Socket.{SocketInfo, is_subscribed, subscribe, unsubscribe}

module _ (u : Utils) (laws : UtilsLaws u) where
  -- what is added
  subscribe_lem :
      (info : SocketInfo) (t v : Str)
      → Distinct info.subscriptions
      → (is_subscribed u (subscribe u info t).0 v
          ≡ (is_subscribed u info v || str_eq (u.str_to_upper v) (u.str_to_upper t)))
        × ((subscribe u info t).1 ≡ not (is_subscribed u info t))
        × Distinct (subscribe u info t).0.subscriptions
  unfolding subscribe
  subscribe_lem info t v d =
      let x = u.str_to_upper t in
      let y = u.str_to_upper v in
      let xs = info.subscriptions in
      elim (Bool-cases (u.contains info.subscriptions (u.str_to_upper t))) [
        | inl old ↦ rw old (ground (arith, str_eq_iff y x), refl, d)
        | inr new ↦ rw new (
          ground (
            arith,
            laws.contains_lem (xs ++ x ∷ []) y,
            laws.contains_lem xs y,
            member-append y xs (x ∷ []),
          ),
          refl,
          Distinct-concat xs x d (sym (laws.contains_lem xs x) ∙ new),
        )
      ]

  -- what is taken away
  unsubscribe_lem :
      (info : SocketInfo) (t v : Str)
      → Distinct info.subscriptions
      → (is_subscribed u (unsubscribe u info t).0 v
          ≡ (is_subscribed u info v && not (str_eq (u.str_to_upper v) (u.str_to_upper t))))
        × ((unsubscribe u info t).1 ≡ is_subscribed u info t)
        × Distinct (unsubscribe u info t).0.subscriptions
  unfolding unsubscribe
  unsubscribe_lem info t v d =
      let x = u.str_to_upper t in
      let y = u.str_to_upper v in
      let xs = info.subscriptions in
      elim (Bool-cases (u.contains info.subscriptions (u.str_to_upper t))) [
        | inr absent ↦ rw absent (ground (arith, str_eq_iff y x), refl, d)
        | inl there ↦ rw there (
          ground (
            arith,
            laws.contains_lem (u.erase xs x) y,
            laws.contains_lem xs y,
            laws.member-erase xs x y d,
          ),
          refl,
          laws.erase-Distinct xs x d,
        )
      ]

  -- `subscribe` adds the event `t` and no other, `unsubscribe` takes it away and no other, however it
  -- is spelled; the one says whether `t` is new, the other whether it was there, and both keep the
  -- names distinct.
  pub subscriptions_lem :
      (info : SocketInfo) (t v : Str)
      → Distinct info.subscriptions
      → ((is_subscribed u (subscribe u info t).0 v
            ≡ (is_subscribed u info v || str_eq (u.str_to_upper v) (u.str_to_upper t)))
          × ((subscribe u info t).1 ≡ not (is_subscribed u info t))
          × Distinct (subscribe u info t).0.subscriptions)
        × ((is_subscribed u (unsubscribe u info t).0 v
              ≡ (is_subscribed u info v && not (str_eq (u.str_to_upper v) (u.str_to_upper t))))
            × ((unsubscribe u info t).1 ≡ is_subscribed u info t)
            × Distinct (unsubscribe u info t).0.subscriptions)
  subscriptions_lem info t v d = (subscribe_lem info t v d, unsubscribe_lem info t v d)
