-- ===== src/Client/Deadline.antt =====
-- The waits with one deadline for all their reads end by it.
use meshquill.Client.Checks.{is_disconnect_error}
use meshquill.Error.{ParseError, CoreError}
use meshquill.Protocol.Packet.{Packet}
use meshquill.Platform.{Platform}
use meshquill.Client.Packets.{
  update_tracking, retain_sync_response, parsed, publish_event, pass_on, parse_packet, read_within,
  received, received_in_time, next_read,
}
use meshquill.Common.{
  Bool-cases, List, Option, Outcome, String, [], arith, err, inl, inr, none, ok, panic, refl, some,
  subst, sym, ℕ, ◌+◌, ◌-◌, ◌∷◌, ◌≡◌, ◌≤◌,
}
use meshquill.Protocol.Parse.{parse}
use meshquill.Client.Wait.{
  waiting, PacketWait, await_by, await_until, react, unless_rejected, unless_refused,
  wait_for_packet, waited, stop, go_on, Reaction,
}
use meshquill.Client.State.{◌>>=◌, raise, Client, Call, proceed, Arrival, Read}

-- A reaction that takes no time.
pub data Instant {F64 A : Type 0} : Reaction F64 A → Type 0 where
  instant_stop :
      (call : Call F64 A) → ((c : Client F64) → (call c).1.clock ≡ c.clock) → Instant (stop call)
  instant_go :
      (change : Client F64 → Client F64)
      → ((c : Client F64) → (change c).clock ≡ c.clock)
      → Instant (go_on change)

elapsed : (limit : ℕ) (arrivals : List Arrival) → (next_read limit arrivals).1 ≤ limit
unfolding next_read
elapsed limit [] = omega arith
elapsed limit (a ∷ arrivals) = ground arith

module _ (p : Platform) where
  open p use {F64}

  clock-received : (read : Read) (c : Client F64) → (received p read c).1.clock ≡ c.clock
  unfolding received parse_packet
  clock-received (Read.packet raw) c = clock-parsed (parse p raw)
    where
      clock-parsed : (o : Outcome ParseError (Packet F64)) → (parsed o c).1.clock ≡ c.clock
      clock-parsed (ok packet) = refl
      clock-parsed (err e) = refl
      clock-parsed panic = refl
  clock-received Read.closed c = refl
  clock-received (Read.failed e) c = elim (Bool-cases (is_disconnect_error e)) [
    | inl h ↦ rw h refl
    | inr h ↦ rw h refl
  ]

  clock-received_in_time :
      (read : Option Read) (c : Client F64) → (received_in_time p read c).1.clock ≡ c.clock
  unfolding received_in_time
  clock-received_in_time none c = refl
  clock-received_in_time (some read) c = clock-received read c

  read_within_clock :
      (limit : ℕ) (c : Client F64) → (read_within p limit c).1.clock ≤ c.clock + limit
  unfolding read_within
  read_within_clock limit c =
      let r = next_read limit c.arrivals in
      omega (
        arith,
        elapsed limit c.arrivals,
        clock-received_in_time r.0 (record c { clock = c.clock + r.1; arrivals = r.2 }),
      )

  module _ {A : Type 0} (deadline : ℕ) (arms : Packet F64 → Reaction F64 A)
      (instant : (packet : Packet F64) → Instant (arms packet)) where
    -- A call that ends by the deadline when it starts before it.
    abbrev Ends : {B : Type 0} → Call F64 B → Type 0
    Ends m = (c : Client F64) → c.clock ≤ deadline → (m c).1.clock ≤ deadline

    Ends-proceed :
        {B : Type 0} (f : B → Call F64 A)
        → ((b : B) → Ends (f b))
        → (o : Outcome CoreError B) (c : Client F64) → c.clock ≤ deadline
        → (proceed f o c).1.clock ≤ deadline
    Ends-proceed f e (ok b) c h = e b c h
    Ends-proceed f e (err x) c h = h
    Ends-proceed f e panic c h = h

    Ends-react :
        (r : Reaction F64 A) (next : Call F64 A) → Instant r → Ends next → Ends (react r next)
    Ends-react _ next (instant_stop call k) n c h = subst (λ t. t ≤ deadline) (sym (k c)) h
    Ends-react _ next (instant_go change k) n c h =
        n (change c) (subst (λ t. t ≤ deadline) (sym (k c)) h)

    Ends-round :
        (next : Packet F64 → Call F64 A)
        → ((packet : Packet F64) → Ends (next packet))
        → (c : Client F64) → c.clock ≤ deadline
        → ((read_within p (deadline - c.clock) >>= next) c).1.clock ≤ deadline
    Ends-round next e c h =
        let r = read_within p (deadline - c.clock) c in
        Ends-proceed next e r.0 r.1 (omega (arith, read_within_clock (deadline - c.clock) c))

    Ends-await_by :
        (arrivals : List Arrival) → Ends (await_by p (λ now. deadline - now.clock) arms arrivals)
    unfolding await_by
    Ends-await_by [] = Ends-round (λ packet. raise CoreError.timeout) (λ packet c h. h)
    Ends-await_by (a ∷ arrivals) =
        Ends-round
          (λ packet. react (arms packet) (await_by p (λ now. deadline - now.clock) arms arrivals))
          (λ packet. Ends-react (arms packet) _ (instant packet) (Ends-await_by arrivals))

  Instant-unless_refused :
      {A : Type 0} (feature operation : String) (packet : Packet F64)
      → Instant {A = A} (unless_refused feature operation packet)
  unfolding unless_refused unless_rejected pass_on publish_event retain_sync_response
      update_tracking
  Instant-unless_refused feature operation Packet.disabled = instant_stop _ (λ c. refl)
  Instant-unless_refused feature operation (Packet.error code) = instant_stop _ (λ c. refl)
  Instant-unless_refused feature operation other = instant_go _ (λ c. refl)

  Instant-waited :
      {A : Type 0} (operation : String) (packet : Packet F64) (w : PacketWait A)
      → Instant (waited operation packet w)
  unfolding waited
  Instant-waited operation packet (PacketWait.ready value) = instant_stop _ (λ c. refl)
  Instant-waited operation packet (PacketWait.fail e) = instant_stop _ (λ c. refl)
  Instant-waited operation packet PacketWait.continue =
      Instant-unless_refused operation operation packet

  -- The wait for a remote's answer ends within its time, whatever arrives and however often packets
  -- that are not the answer keep coming.
  pub wait_for_packet_bounded :
      {A : Type 0} (limit : ℕ) (operation : String) (extract : Packet F64 → PacketWait A)
      (c : Client F64)
      → (wait_for_packet p limit operation extract c).1.clock ≤ c.clock + limit
  unfolding wait_for_packet await_until waiting
  wait_for_packet_bounded limit operation extract c =
      Ends-await_by (c.clock + limit) (waiting p operation extract)
        (λ packet. Instant-waited operation packet (extract packet)) c.arrivals c (omega arith)
