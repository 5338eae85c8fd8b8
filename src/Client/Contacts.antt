-- ===== src/Client/Contacts.antt =====
-- What `list_contacts_snapshot` collects.
use meshquill.Client.Session.{ContactCollection, contact_arms, collect}
use meshquill.Error.{CoreError}
use meshquill.Client.Packets.{
  parsed, number, parse_packet, received, received_in_time, read_within, next_read,
  read_next_packet_with_timeout,
}
use meshquill.Protocol.Packet.{Packet}
use meshquill.Domain.{Contact}
use meshquill.Platform.{Platform}
use meshquill.Common.{
  All, subst, Option, Outcome, ap, append-nil, append_assoc, le→ltb, refl, some, sym, ◌++◌, ◌+◌,
  ◌∙◌, List, [], ok, ℕ, ◌∷◌, ◌≡◌, ◌≤◌,
}
use meshquill.Client.State.{Client, Call, proceed, Arrival, Read}
use meshquill.Protocol.Parse.{parse}

next_read_in_time :
    (limit delay : ℕ) (raw : List ℕ) (rest : List Arrival)
    → delay ≤ limit
    → next_read limit (record { delay = delay; what = Read.packet raw } ∷ rest)
      ≡ (some (Read.packet raw), delay, rest)
unfolding next_read
next_read_in_time limit delay raw rest h = rw (le→ltb limit delay h) refl

module _ (p : Platform) where
  open p use {F64}

  -- The packet of a contact, and when it arrives.
  pub record Delivery : Type 0 where
    pub delay : ℕ
    pub raw : List ℕ
    pub contact : Contact F64

  -- It comes in time and holds the contact.
  abbrev pub IsDelivered : ℕ → Delivery → Type 0
  IsDelivered limit d = (d.delay ≤ limit) × (parse p d.raw ≡ ok (Packet.contact d.contact))

  abbrev pub arrivals_of : List Delivery → List Arrival → List Arrival
  arrivals_of [] rest = rest
  arrivals_of (d ∷ ds) rest =
      record { delay = d.delay; what = Read.packet d.raw } ∷ arrivals_of ds rest

  abbrev pub contacts_of : List Delivery → List (Contact F64)
  contacts_of [] = []
  contacts_of (d ∷ ds) = d.contact ∷ contacts_of ds

  -- A packet that arrives in time is read.
  read_lem :
      (c : Client F64) (delay : ℕ) (raw : List ℕ) (rest : List Arrival) (packet : Packet F64)
      → c.arrivals ≡ record { delay = delay; what = Read.packet raw } ∷ rest
      → delay ≤ c.request_timeout
      → parse p raw ≡ ok packet
      → read_next_packet_with_timeout p c ≡ (
        ok (number packet c.next_message_observation_id).0,
        record c {
          clock = c.clock + delay;
          arrivals = rest;
          next_message_observation_id = (number packet c.next_message_observation_id).1;
        },
      )
  unfolding read_next_packet_with_timeout read_within received_in_time received parse_packet
  read_lem c delay raw rest packet a t e =
      let take : Option Read × ℕ × List Arrival → Outcome CoreError (Packet F64) × Client F64 =
        λ r. received_in_time p r.0 (record c { clock = c.clock + r.1; arrivals = r.2 }) in
      ap (λ script. take (next_read c.request_timeout script)) a
      ∙ ap take (next_read_in_time c.request_timeout delay raw rest t)
      ∙ ap (λ o. parsed o (record c { clock = c.clock + delay; arrivals = rest })) e

  -- The contacts that the loop of `collect_contacts` returns are those that the device sent, each
  -- once and in its order, with the marker that ends them: when every packet comes within the
  -- request's time after the one before, every contact packet parses to its contact and the packet
  -- after them to the end of the contacts, the collection is exactly that, and what arrives later
  -- is left unread.
  pub collect-deliveries :
      (limit : ℕ) (c : Client F64) (ds : List Delivery) (delay : ℕ) (raw : List ℕ) (lastmod : ℕ)
      (later : List Arrival) (contacts : List (Contact F64))
      → c.request_timeout ≡ limit
      → All (IsDelivered limit) ds
      → delay ≤ limit
      → parse p raw ≡ ok (Packet.contact_end lastmod)
      → c.arrivals ≡ arrivals_of ds (record { delay = delay; what = Read.packet raw } ∷ later)
      → ((collect p
            (arrivals_of ds (record { delay = delay; what = Read.packet raw } ∷ later))
            contacts
            c).0
          ≡ ok (record { contacts = contacts ++ contacts_of ds; lastmod = some lastmod }))
        × ((collect p
              (arrivals_of ds (record { delay = delay; what = Read.packet raw } ∷ later))
              contacts
              c).1.arrivals
            ≡ later)
  unfolding collect contact_arms
  collect-deliveries limit c [] delay raw lastmod later contacts l ws h e q =
      let next : Packet F64 → Call F64 (ContactCollection F64) =
        λ packet. contact_arms packet contacts (collect p later) in
      let run =
        ap (λ r. proceed next r.0 r.1)
          (read_lem c delay raw later (Packet.contact_end lastmod) q
            (subst (λ t. delay ≤ t) (sym l) h) e) in
      (
        ap (λ r. r.0) run
            ∙ ap (λ cs. ok (record { contacts = cs; lastmod = some lastmod }))
                (sym (append-nil contacts)),
        ap (λ r. r.1.arrivals) run,
      )
  collect-deliveries limit c (d ∷ ds) delay raw lastmod later contacts l (w, ws) h e q =
      let rest = arrivals_of ds (record { delay = delay; what = Read.packet raw } ∷ later) in
      let next : Packet F64 → Call F64 (ContactCollection F64) =
        λ packet. contact_arms packet contacts (collect p rest) in
      let run =
        ap (λ r. proceed next r.0 r.1)
          (read_lem c d.delay d.raw rest (Packet.contact d.contact) q
            (subst (λ t. d.delay ≤ t) (sym l) w.0) w.1) in
      let after =
        collect-deliveries limit (record c { clock = c.clock + d.delay; arrivals = rest }) ds delay
          raw lastmod later (contacts ++ (d.contact ∷ [])) l ws h e refl in
      (
        ap (λ r. r.0) run
            ∙ after.0
            ∙ ap (λ cs. ok (record { contacts = cs; lastmod = some lastmod }))
                (append_assoc contacts (d.contact ∷ []) (contacts_of ds)),
        ap (λ r. r.1.arrivals) run ∙ after.1,
      )
