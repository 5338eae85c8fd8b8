-- ===== src/Client/Writing.antt =====
-- What a call that succeeds has written.
use meshquill.Client.Checks.{is_disconnect_error}
use meshquill.Client.Packets.{
  update_tracking, parsed, retain_sync_response, next_read, publish_event, parse_packet, pass_on,
  received_in_time, read_within, received,
}
use meshquill.Platform.{Platform}
use meshquill.Protocol.Packet.{Packet}
use meshquill.Error.{ParseError, TransportError, CoreError}
use meshquill.Common.{
  Bool-cases, List, Option, Outcome, String, [], ap, append-nil, append_assoc, err, inl, inr,
  length, ltb, none, ok, panic, refl, some, sym, ℕ, ◌++◌, ◌+◌, ◌==◌, ◌∙◌, ◌∷◌, ◌≡◌,
}
use meshquill.Protocol.Parse.{parse}
use meshquill.Protocol.Command.{encode, Command}
use meshquill.Client.Wait.{
  expecting, send_unless_awaiting, await, await_by, ok_arms, send_command_expect,
  send_command_expect_ok, transport_write, unless_rejected, expected, react, send_raw,
  unless_refused, write_raw, wrote, stop, go_on, Reaction,
}
use meshquill.Client.State.{
  answer, SyncState, ensure_connected, ◌>>=◌, ◌>>◌, raise, Client, Call, proceed, Arrival, Read,
}

module _ {F64 : Type 0} where
  abbrev pub Silent : {A : Type 0} → Call F64 A → Type 0
  Silent m = (c : Client F64) → (m c).1.written ≡ c.written

  -- A call that, when it returns a value, has written these payloads.
  abbrev pub Writes : {A : Type 0} → Call F64 A → List (List ℕ) → Type 0
  Writes {A = A} m payloads =
      (c : Client F64) (a : A) → (m c).0 ≡ ok a → (m c).1.written ≡ c.written ++ payloads

  proceed-eq-ok :
      {A B : Type 0} (f : A → Call F64 B) (o : Outcome CoreError A) (d : Client F64) (b : B)
      → (proceed f o d).0 ≡ ok b
      → (a : A) × (o ≡ ok a) × (proceed f o d ≡ f a d)
  proceed-eq-ok f (ok a) d b h = (a, refl, refl)
  proceed-eq-ok f (err e) d b h = cc
  proceed-eq-ok f panic d b h = cc

  proceed-Silent :
      {A B : Type 0} (f : A → Call F64 B)
      → ((a : A) → Silent (f a))
      → (o : Outcome CoreError A) (d : Client F64) → (proceed f o d).1.written ≡ d.written
  proceed-Silent f s (ok a) d = s a d
  proceed-Silent f s (err e) d = refl
  proceed-Silent f s panic d = refl

  pub Writes-bind :
      {A B : Type 0} (m : Call F64 A) (f : A → Call F64 B) (front back : List (List ℕ))
      → Writes m front
      → ((a : A) → Writes (f a) back)
      → Writes (m >>= f) (front ++ back)
  Writes-bind m f front back wm wf c b h =
      let (a, e, q) = proceed-eq-ok f (m c).0 (m c).1 b h in
      ap (λ r. r.1.written) q
      ∙ wf a (m c).1 b (ap (λ r. r.0) (sym q) ∙ h)
      ∙ ap (λ w. w ++ back) (wm c a e)
      ∙ append_assoc c.written front back

  pub Writes-Silent : {A : Type 0} (m : Call F64 A) → Silent m → Writes m []
  Writes-Silent m s c a h = s c ∙ sym (append-nil c.written)

  -- A reaction that writes nothing.
  pub data Mute {A : Type 0} : Reaction F64 A → Type 0 where
    mute_stop : (call : Call F64 A) → Silent call → Mute (stop call)
    mute_go :
        (change : Client F64 → Client F64)
        → ((c : Client F64) → (change c).written ≡ c.written)
        → Mute (go_on change)

  react-Silent :
      {A : Type 0} (r : Reaction F64 A) (next : Call F64 A)
      → Mute r
      → Silent next
      → Silent (react r next)
  react-Silent _ next (mute_stop call k) n c = k c
  react-Silent _ next (mute_go change k) n c = n (change c) ∙ k c

  Writes-ensure_connected : Writes {A = Unit {0}} ensure_connected []
  unfolding ensure_connected
  Writes-ensure_connected = Writes-Silent ensure_connected (λ c. refl)

  wrote-written :
      (o : Option TransportError) (c : Client F64) (u : Unit {0})
      → (wrote o c).0 ≡ ok u
      → (wrote o c).1.written ≡ c.written
  unfolding wrote
  wrote-written none c u h = refl
  wrote-written (some e) c u h = cc

  Writes-write_raw : (payload : List ℕ) → Writes {A = Unit {0}} (write_raw payload) (payload ∷ [])
  unfolding write_raw transport_write
  Writes-write_raw payload = elim (Bool-cases (length payload == 0)) [
    | inl e ↦ rw e (λ c u h. cc)
    | inr e ↦ elim (Bool-cases (ltb 176 (length payload))) [
      | inl q ↦ rw e (rw q (λ c u h. cc))
      | inr q ↦ rw e (rw q (λ c u h. wrote-written (answer c.write_ends) _ u h))
    ]
  ]

  pub Writes-send_raw : (payload : List ℕ) → Writes {A = Unit {0}} (send_raw payload) (payload ∷ [])
  unfolding send_raw
  Writes-send_raw payload c u = unless_awaiting c.sync_state
    where
      unless_awaiting :
          (s : SyncState)
          → (send_unless_awaiting s payload c).0 ≡ ok u
          → (send_unless_awaiting s payload c).1.written ≡ c.written ++ (payload ∷ [])
      unless_awaiting SyncState.idle = Writes-write_raw payload c u
      unless_awaiting SyncState.awaiting_response = λ h. cc

  unless_refused-Mute :
      {A : Type 0} (feature operation : String) (packet : Packet F64)
      → Mute {A = A} (unless_refused feature operation packet)
  unfolding unless_refused unless_rejected pass_on publish_event retain_sync_response
      update_tracking
  unless_refused-Mute feature operation Packet.disabled = mute_stop _ (λ c. refl)
  unless_refused-Mute feature operation (Packet.error code) = mute_stop _ (λ c. refl)
  unless_refused-Mute feature operation other = mute_go _ (λ c. refl)

  ok_arms-Mute : (packet : Packet F64) → Mute (ok_arms packet)
  ok_arms-Mute (Packet.ok value) = mute_stop _ (λ c. refl)
  ok_arms-Mute other = unless_refused-Mute "requested operation" "command" other

  expected-Mute :
      {A : Type 0} (context : String) (packet : Packet F64) (o : Option A)
      → Mute (expected context packet o)
  unfolding expected
  expected-Mute context packet none = unless_refused-Mute context context packet
  expected-Mute context packet (some value) = mute_stop _ (λ c. refl)

module _ (p : Platform) where
  open p use {F64}

  received-Silent : (read : Read) → Silent (received p read)
  unfolding received parse_packet
  received-Silent (Read.packet raw) c = parsed-Silent (parse p raw)
    where
      parsed-Silent : (o : Outcome ParseError (Packet F64)) → (parsed o c).1.written ≡ c.written
      parsed-Silent (ok packet) = refl
      parsed-Silent (err e) = refl
      parsed-Silent panic = refl
  received-Silent Read.closed c = refl
  received-Silent (Read.failed e) c = elim (Bool-cases (is_disconnect_error e)) [
    | inl h ↦ rw h refl
    | inr h ↦ rw h refl
  ]

  read_within-Silent : (limit : ℕ) → Silent (read_within p limit)
  unfolding read_within received_in_time
  read_within-Silent limit c = in_time (next_read limit c.arrivals).0
    where
      later_client : Client F64
      later_client = record c {
        clock = c.clock + (next_read limit c.arrivals).1;
        arrivals = (next_read limit c.arrivals).2;
      }

      in_time : (o : Option Read) → (received_in_time p o later_client).1.written ≡ c.written
      in_time none = refl
      in_time (some read) = received-Silent read later_client

  module _ {A : Type 0} (arms : Packet F64 → Reaction F64 A)
      (mute : (packet : Packet F64) → Mute (arms packet)) where
    await_by-Silent :
        (limit : Client F64 → ℕ) (arrivals : List Arrival) → Silent (await_by p limit arms arrivals)
    unfolding await_by
    await_by-Silent limit [] c =
        proceed-Silent (λ packet. raise CoreError.timeout) (λ packet d. refl)
          (read_within p (limit c) c).0 (read_within p (limit c) c).1
        ∙ read_within-Silent (limit c) c
    await_by-Silent limit (a ∷ arrivals) c =
        proceed-Silent (λ packet. react (arms packet) (await_by p limit arms arrivals))
          (λ packet. react-Silent (arms packet) _ (mute packet) (await_by-Silent limit arrivals))
          (read_within p (limit c) c).0 (read_within p (limit c) c).1
        ∙ read_within-Silent (limit c) c

    pub Writes-command :
        (payload : List ℕ)
        → Writes (ensure_connected >> (send_raw payload >> await p arms)) (payload ∷ [])
    unfolding await
    Writes-command payload =
        Writes-bind ensure_connected (λ _. send_raw payload >> await p arms) [] (payload ∷ [])
          Writes-ensure_connected
          (λ _.
            Writes-bind (send_raw payload) (λ _. await p arms) (payload ∷ []) []
              (Writes-send_raw payload)
              (λ _.
                Writes-Silent (await p arms)
                  (λ c. await_by-Silent (λ now. now.request_timeout) c.arrivals c)))

  pub Writes-expect_ok :
      (command : Command) → Writes (send_command_expect_ok p command) (encode command ∷ [])
  unfolding send_command_expect_ok
  Writes-expect_ok command = Writes-command ok_arms ok_arms-Mute (encode command)

  pub Writes-expect :
      {A : Type 0} (command : Command) (context : String) (extract : Packet F64 → Option A)
      → Writes (send_command_expect p command context extract) (encode command ∷ [])
  unfolding send_command_expect expecting
  Writes-expect command context extract =
      Writes-command (expecting p context extract)
        (λ packet. expected-Mute context packet (extract packet)) (encode command)
