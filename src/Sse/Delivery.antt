-- ===== src/Sse/Delivery.antt =====
-- What a subscriber sees of the events that are published.
use clamav_webui.Prelude.{
  ℕ, ◌≡◌, ◌≤◌, ◌<◌, refl, Bool, true, false, not, Option, none, some, List, [], ◌∷◌, ◌++◌,
  append_assoc, append-nil, length, ◌==◌, nat_eq, arith, if◌then◌else◌, all, Bool-cases, inl, inr,
}
use clamav_webui.Prelude.Channel.{Subsequence, nil, offer, length-offer, Subsequence-offer}
use clamav_webui.Sse.{
  Event, Bus, subscriber_cap, subscribe, cancel, publish, receive, offer_to, take_from,
}

pub data Action (D : Type 0) : Type 0 where
  subscribes : Action D
  cancels receives : ℕ → Action D
  publishes : Event D → Action D

abbrev as_list : {D : Type 0} → Option (Event D) → List (Event D)
as_list none = []
as_list (some ev) = ev ∷ []

module _ {D : Type 0} (ch : ℕ) where
  unfoldable pub act : Action D → Bus D → Bus D
  act subscribes b = (subscribe b).0
  act (cancels j) b = cancel j b
  act (receives j) b = (receive j b).0
  act (publishes ev) b = publish ev b

  -- What the subscriber `ch` receives in an action.
  unfoldable pub received : Action D → Bus D → List (Event D)
  received (receives j) b = if j == ch then as_list (receive j b).1 else []
  received subscribes b = []
  received (cancels j) b = []
  received (publishes ev) b = []

  abbrev pub sent : Action D → List (Event D)
  sent (publishes ev) = ev ∷ []
  sent a = []

  abbrev pub spares : Action D → Bool
  spares (cancels j) = not (j == ch)
  spares a = true

  -- The bus after some actions, and all that `ch` received, oldest first.
  unfoldable pub run : Bus D → List (Event D) → List (Action D) → Bus D × List (Event D)
  run b got [] = (b, got)
  run b got (a ∷ actions) = run (act a b) (got ++ received a b) actions

  abbrev pub published : List (Action D) → List (Event D)
  published [] = []
  published (a ∷ actions) = sent a ++ published actions

  -- `ch` is subscribed, with what it received and what waits a subsequence of what was published.
  pub record Follows (b : Bus D) (got log : List (Event D)) : Type 0 where
    pub waiting : List (Event D)
    pub buffer : b.subs ch ≡ some waiting
    pub in_order : Subsequence (got ++ waiting) log
    pub bounded : length waiting ≤ subscriber_cap
    pub known : ch < b.made

  quiet :
      (b : Bus D) (got log : List (Event D)) → Follows b got log → Follows b (got ++ []) (log ++ [])
  quiet b got log f = rw (append-nil got) (rw (append-nil log) f)

  -- The buffer of `ch` is as before in another bus.
  same-Follows :
      (b c : Bus D) (got log : List (Event D))
      → c.subs ch ≡ b.subs ch
      → b.made ≤ c.made
      → Follows b got log
      → Follows c got log
  same-Follows b c got log e h f = record {
    waiting = f.waiting;
    buffer = rw e f.buffer;
    in_order = f.in_order;
    bounded = f.bounded;
    known = omega (arith, h, f.known);
  }

  subscribe-Follows :
      (b : Bus D) (got log : List (Event D)) → Follows b got log → Follows (subscribe b).0 got log
  unfolding subscribe
  subscribe-Follows b got log f =
      same-Follows b (subscribe b).0 got log (ground (arith, f.known)) (omega arith) f

  cancel-Follows :
      (j : ℕ) (b : Bus D) (got log : List (Event D))
      → not (j == ch) ≡ true
      → Follows b got log
      → Follows (cancel j b) got log
  unfolding cancel
  cancel-Follows j b got log h f =
      same-Follows b (cancel j b) got log (ground (arith, h)) (omega arith) f

  other_receive :
      (j : ℕ) (b : Bus D)
      → (j == ch) ≡ false
      → ((receive j b).0.subs ch ≡ b.subs ch) × ((receive j b).0.made ≡ b.made)
  unfolding receive
  other_receive j b h = (ground (arith, h), ground arith)

  own_receive-Follows :
      (b : Bus D) (got log w : List (Event D))
      → b.subs ch ≡ some w
      → Subsequence (got ++ w) log
      → length w ≤ subscriber_cap
      → ch < b.made
      → Follows (take_from ch (some w) b).0 (got ++ as_list (take_from ch (some w) b).1) log
  unfolding take_from
  own_receive-Follows b got log [] e o h k = record {
    waiting = [];
    buffer = e;
    in_order = rw (append-nil got) o;
    bounded = h;
    known = k;
  }
  own_receive-Follows b got log (ev ∷ q) e o h k = record {
    waiting = q;
    buffer = ground arith;
    in_order = rw append_assoc o;
    bounded = ground (arith, h);
    known = k;
  }

  receive-Follows :
      (j : ℕ) (b : Bus D) (got log : List (Event D))
      → Follows b got log
      → Follows (receive j b).0 (got ++ received (receives j) b) log
  unfolding received
  receive-Follows j b got log f = elim (Bool-cases (j == ch)) [
    | inl own ↦
        let same : j ≡ ch = ground (arith, own) in
        rw own (
          rw same (
            unfold receive in
            rw f.buffer
              (own_receive-Follows b got log f.waiting f.buffer f.in_order f.bounded f.known)))
    | inr other ↦
        let kept = other_receive j b other in
        rw other (
          rw (append-nil got)
            (same-Follows b (receive j b).0 got log kept.0 (omega (arith, kept.1)) f))
  ]

  publish-Follows :
      (ev : Event D) (b : Bus D) (got log : List (Event D))
      → Follows b got log
      → Follows (publish ev b) got (log ++ ev ∷ [])
  unfolding publish offer_to
  publish-Follows ev b got log f = record {
    waiting = (offer subscriber_cap ev f.waiting).0;
    buffer = rw f.buffer refl;
    in_order = Subsequence-offer subscriber_cap ev got f.waiting log f.in_order;
    bounded = length-offer subscriber_cap ev f.waiting f.bounded;
    known = f.known;
  }

  act-Follows :
      (a : Action D) (b : Bus D) (got log : List (Event D))
      → spares a ≡ true
      → Follows b got log
      → Follows (act a b) (got ++ received a b) (log ++ sent a)
  unfolding act received
  act-Follows subscribes b got log h f =
      quiet (subscribe b).0 got log (subscribe-Follows b got log f)
  act-Follows (cancels j) b got log h f =
      quiet (cancel j b) got log (cancel-Follows j b got log h f)
  act-Follows (receives j) b got log h f = rw (append-nil log) (receive-Follows j b got log f)
  act-Follows (publishes ev) b got log h f = rw (append-nil got) (publish-Follows ev b got log f)

  run-Follows :
      (b : Bus D) (got log : List (Event D)) (actions : List (Action D))
      → all spares actions ≡ true
      → Follows b got log
      → Follows (run b got actions).0 (run b got actions).1 (log ++ published actions)
  unfolding run
  run-Follows b got log [] h f = rw (append-nil log) f
  run-Follows b got log (a ∷ actions) h f = rw (← append_assoc) (
      run-Follows (act a b) (got ++ received a b) (log ++ sent a) actions (ground (arith, h))
        (act-Follows a b got log (ground (arith, h)) f))

-- A subscriber that does not cancel, whatever it and the others do: what it received and what waits in its buffer
-- are, in this order, a subsequence of the events published since it subscribed, and at most 64 wait.
pub subscriber-Follows :
    {D : Type 0} (b : Bus D) (actions : List (Action D))
    → let (c, ch) = subscribe b in
      all (spares ch) actions ≡ true
      → Follows ch (run ch c [] actions).0 (run ch c [] actions).1 (published ch actions)
unfolding subscribe
subscriber-Follows b actions h = run-Follows b.made (subscribe b).0 [] [] actions h (record {
  waiting = [];
  buffer = ground arith;
  in_order = nil;
  bounded = omega arith;
  known = omega arith;
})
