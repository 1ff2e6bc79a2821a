-- ===== src/Cancellation.antt =====
-- core/runtime/cancellation.py: the registry of running invocations and their cancellation events.
-- An event is known by whether it is set.
mod Tests
use grafux_mcp.Base.{
  ==-false, Bool, Dict, String, [], ap, arith, erase, false, if◌then◌else◌, insert, length, lookup,
  lookup-erase, lookup-erase_self, lookup-insert, lookup-insert_self, none, refl, some, true, ℕ,
  ◌↔◌, ◌≡◌, ◌≢◌, nat_eq, string_eq, pair_eq,
}

pub record Events : Type 0 where
  pub flags : Dict String Bool

abbrev pub no_events : Events
no_events = record { flags = [] }

unfoldable pub register : String → Events → Events
unfolding insert
register id ev = record { flags = insert id false ev.flags }

-- True if the event is there and was not set before.
unfoldable pub cancel : String → Events → Bool × Events
unfolding lookup insert
cancel id ev = elim (lookup id ev.flags) [
  | none ↦ (false, ev)
  | some set ↦ if set then (false, ev) else (true, record { flags = insert id true ev.flags })
]

unfoldable pub unregister : String → Events → Events
unfolding erase
unregister id ev = record { flags = erase id ev.flags }

unfoldable pub is_cancelled : String → Events → Bool
unfolding lookup
is_cancelled id ev = elim (lookup id ev.flags) [ none ↦ false | some set ↦ set ]

unfoldable pub active_count : Events → ℕ
active_count ev = length ev.flags

-- `cancel` answers True exactly for a registered invocation that is not yet cancelled.
pub cancel_lem :
    (id : String) (ev : Events) → ((cancel id ev).0 ≡ true) ↔ (lookup id ev.flags ≡ some false)
unfolding cancel
cancel_lem id ev = (λ h. ground arith, λ h. rw (h, cancel) refl)

module _ (id : String) (ev : Events) where
  lookup-register : lookup id (register id ev).flags ≡ some false
  unfolding register
  lookup-register = lookup-insert_self id false ev.flags

  cancel-register :
      cancel id (register id ev) ≡ (true, record { flags = insert id true (register id ev).flags })
  unfolding cancel
  cancel-register = rw (lookup-register, cancel) refl

  lookup-cancelled : lookup id (cancel id (register id ev)).1.flags ≡ some true
  lookup-cancelled = rw cancel-register (lookup-insert_self id true (register id ev).flags)

module _ (id j : String) (ev : Events) (ne : id ≢ j) where
  same-register : lookup j (register id ev).flags ≡ lookup j ev.flags
  unfolding register
  same-register = rw (lookup-insert id j false ev.flags, ==-false id j ne) refl

  same-cancel : lookup j (cancel id ev).1.flags ≡ lookup j ev.flags
  unfolding cancel
  same-cancel = ground (arith, lookup-insert id j true ev.flags, ==-false id j ne)

  same-unregister : lookup j (unregister id ev).flags ≡ lookup j ev.flags
  unfolding unregister
  same-unregister = rw (lookup-erase id j ev.flags, ==-false id j ne) refl

is_cancelled_of_lookup :
    (id : String) (ev ev' : Events)
    → lookup id ev.flags ≡ lookup id ev'.flags
    → is_cancelled id ev ≡ is_cancelled id ev'
unfolding is_cancelled
is_cancelled_of_lookup id ev ev' e = rw (e, is_cancelled) refl

-- The life of one invocation's event among the others: registering clears it, cancelling sets it
-- once, unregistering takes it away, and none of the three changes another invocation's event.
pub cancellation_life :
    (id j : String) (ev : Events)
    → id ≢ j
    → (is_cancelled id (register id ev) ≡ false)
      × ((cancel id (register id ev)).0 ≡ true)
      × (is_cancelled id (cancel id (register id ev)).1 ≡ true)
      × ((cancel id (cancel id (register id ev)).1).0 ≡ false)
      × ((cancel id (unregister id ev)).0 ≡ false)
      × (is_cancelled j (register id ev) ≡ is_cancelled j ev)
      × (is_cancelled j (cancel id ev).1 ≡ is_cancelled j ev)
      × (is_cancelled j (unregister id ev) ≡ is_cancelled j ev)
unfolding is_cancelled cancel unregister
cancellation_life id j ev ne = (
  rw (lookup-register id ev, is_cancelled) refl,
  ap (λ r. r.0) (cancel-register id ev),
  rw (lookup-cancelled id ev, is_cancelled) refl,
  rw (lookup-cancelled id ev, cancel) refl,
  rw (lookup-erase_self id ev.flags, cancel) refl,
  is_cancelled_of_lookup j _ ev (same-register id j ev ne),
  is_cancelled_of_lookup j _ ev (same-cancel id j ev ne),
  is_cancelled_of_lookup j _ ev (same-unregister id j ev ne),
)
