-- ===== src/Protocol/Discovery.antt =====
-- crates/meshquill-core/src/protocol.rs, `parse_path_discovery`: the packet is the two paths that
-- it reads, each behind its descriptor.
use meshquill.Error.{ParseError}
use meshquill.Protocol.Parse.Session.{parse_path_discovery}
use meshquill.Protocol.Parse.Pieces.{require_len}
use meshquill.Domain.{PathDiscovery}
use meshquill.Common.{
  Option, Outcome, String, append-nil, at, drop-length, err, none, not, panic, reject_if,
  reject_if-eq-ok, slice, subst, ◌==◌, >>=-eq-ok, List, [], ap, arith, drop, get_elem?, length,
  length-drop, length-take, map_err, ok, some, suc, sym, take, take-append-drop, zero, ℕ, ◌++◌, ◌+◌,
  ◌-◌, ◌∙◌, ◌∷◌, ◌≡◌, ◌≤◌,
}
use meshquill.Common.Pieces.{drop_add}
use meshquill.Domain.{ContactRoute, MeshPath, PathDiscovery}
use meshquill.Domain.Values.{try_path}
use meshquill.Protocol.Packet.{Packet}
use meshquill.Protocol.PacketCode.{PacketCode}
use meshquill.Protocol.Parse.Pieces.{contact_route, require_len}
use meshquill.Protocol.Parse.Session.{parse_discovered_path, parse_path_discovery, get_range, ok_or}

get_elem?-drop :
    (raw : List ℕ) (i x : ℕ) → get_elem? raw i ≡ some x → drop i raw ≡ x ∷ drop (i + 1) raw
get_elem?-drop [] i x h = cc
get_elem?-drop (y ∷ raw) zero x h = cc
get_elem?-drop (y ∷ raw) (suc i) x h =
    get_elem?-drop raw i x h
    ∙ ap (λ (k : ℕ). x ∷ drop k (y ∷ raw)) {x = suc (i + 1)} {y = suc i + 1} (omega arith)

get_range-eq_some :
    (raw : List ℕ) (a b : ℕ) (bytes : List ℕ)
    → get_range raw a b ≡ some bytes
    → (a ≤ b) × (b ≤ length raw) × (bytes ≡ take (b - a) (drop a raw))
unfolding get_range
get_range-eq_some raw a b bytes h = (ground arith, ground arith, ground arith)

get_range-drop :
    (raw : List ℕ) (a b : ℕ) (bytes : List ℕ)
    → get_range raw a b ≡ some bytes
    → (drop a raw ≡ bytes ++ drop b raw) × (a + length bytes ≡ b) × (b ≤ length raw)
get_range-drop raw a b bytes h =
    let (low, high, is) = get_range-eq_some raw a b bytes h in
    let there : b ≡ a + (b - a) = omega arith in
    (
      sym (take-append-drop (b - a) (drop a raw))
          ∙ ap (λ t. t ++ drop (b - a) (drop a raw)) (sym is)
          ∙ ap (λ t. bytes ++ t)
              (sym (drop_add a (b - a) raw) ∙ ap (λ (k : ℕ). drop k raw) (sym there)),
      omega (arith, ap length is, length-take (b - a) (drop a raw), length-drop a raw),
      high,
    )

try_path-eq-ok : (bytes : List ℕ) (path : MeshPath) → try_path bytes ≡ ok path → path.bytes ≡ bytes
unfolding try_path
try_path-eq-ok bytes path h = ground arith

ok_or-eq-ok {ℓ} :
    {A : Type ℓ} (o : Option A) (reason : String) {a : A} → ok_or o reason ≡ ok a → o ≡ some a
ok_or-eq-ok none reason h = cc
ok_or-eq-ok (some a) reason h = cc

map_err-eq-ok {ℓ} :
    {D E : Type 0} {A : Type ℓ} (e : E) (m : Outcome D A) {a : A} → map_err e m ≡ ok a → m ≡ ok a
map_err-eq-ok e (ok a) h = cc
map_err-eq-ok e (err d) h = cc
map_err-eq-ok e panic h = cc

slice-drop-back :
    (raw : List ℕ) (a b : ℕ) (piece : List ℕ)
    → slice {E = ParseError} raw a b ≡ ok piece
    → drop a raw ≡ piece ++ drop b raw
unfolding slice
slice-drop-back raw a b piece h =
    let low : a ≤ b = ground arith in
    let is : piece ≡ take (b - a) (drop a raw) = ground arith in
    let there : b ≡ a + (b - a) = omega arith in
    sym (take-append-drop (b - a) (drop a raw))
    ∙ ap (λ t. t ++ drop (b - a) (drop a raw)) (sym is)
    ∙ ap (λ t. piece ++ t) (sym (drop_add a (b - a) raw) ∙ ap (λ (k : ℕ). drop k raw) (sym there))

-- The packet behind its first two bytes.
abbrev Whole : List ℕ → PathDiscovery → Type 0
Whole raw found =
    (outbound : ℕ) × (inbound : ℕ) × (contact_route outbound
      ≡ (found.outbound_route, length found.outbound_path.bytes))
    × (contact_route inbound ≡ (found.inbound_route, length found.inbound_path.bytes))
    × (drop 2 raw
        ≡ found.pubkey_prefix
          ++ (outbound ∷ (found.outbound_path.bytes ++ (inbound ∷ found.inbound_path.bytes))))

joined :
    (raw prefix front back : List ℕ) (d d' middle end : ℕ)
    → drop 2 raw ≡ prefix ++ drop 8 raw
    → drop 8 raw ≡ d ∷ (front ++ drop middle raw)
    → drop middle raw ≡ d' ∷ (back ++ drop end raw)
    → drop end raw ≡ []
    → drop 2 raw ≡ prefix ++ (d ∷ (front ++ (d' ∷ back)))
joined raw prefix front back d d' middle end h k l m =
    let tail : drop middle raw ≡ d' ∷ back =
      l ∙ ap (λ t. d' ∷ (back ++ t)) m ∙ ap (λ t. d' ∷ t) (append-nil back) in
    h ∙ ap (λ t. prefix ++ t) (k ∙ ap (λ t. d ∷ (front ++ t)) tail)

-- A descriptor and its path, up to `end`.
record Described (raw : List ℕ) (cursor : ℕ) (route : ContactRoute) (path : MeshPath) (end : ℕ)
    : Type 0 where
  descriptor : ℕ
  route_is : contact_route descriptor ≡ (route, length path.bytes)
  bytes_are : drop cursor raw ≡ descriptor ∷ (path.bytes ++ drop end raw)
  bound : end ≤ length raw

parse_discovered_path-eq-ok :
    (raw : List ℕ) (cursor : ℕ) (route : ContactRoute) (path : MeshPath) (end : ℕ)
    → parse_discovered_path raw cursor ≡ ok (route, path, end)
    → Described raw cursor route path end
unfolding parse_discovered_path
parse_discovered_path-eq-ok raw cursor route path end h =
    let (d, e, h1) = >>=-eq-ok (ok_or (get_elem? raw cursor) _) _ h in
    let (bytes, e1, h2) =
      >>=-eq-ok (ok_or (get_range raw (cursor + 1) (cursor + 1 + (contact_route d).1)) _) _ h1 in
    let (found, e2, h3) = >>=-eq-ok (map_err _ (try_path bytes)) _ h2 in
    let n : ℕ = (contact_route d).1 in
    let got : ContactRoute × MeshPath × ℕ = ((contact_route d).0, found, cursor + 1 + n) in
    let wanted : ContactRoute × MeshPath × ℕ = (route, path, end) in
    let triple : got ≡ wanted = cc (h3) in
    let (rest, size, high) =
      get_range-drop raw (cursor + 1) (cursor + 1 + n) bytes (ok_or-eq-ok _ _ e1) in
    let ends : cursor + 1 + n ≡ end = ap (λ t. t.2) triple in
    let same : path.bytes ≡ bytes =
      ap (λ t. t.1.bytes) (sym triple) ∙ try_path-eq-ok bytes found (map_err-eq-ok _ _ e2) in
    record {
      descriptor = d;
      route_is =
          ap (λ r. (r, n)) (ap (λ t. t.0) triple)
          ∙ ap (λ (k : ℕ). (route, k)) {x = n} {y = length path.bytes}
              (omega (arith, size, ap length same));
      bytes_are =
          get_elem?-drop raw cursor d (ok_or-eq-ok _ _ e)
          ∙ ap (λ t. d ∷ t)
              (rest
                ∙ ap (λ t. t ++ drop (cursor + 1 + n) raw) (sym same)
                ∙ ap (λ (k : ℕ). path.bytes ++ drop k raw) ends);
      bound = omega (arith, high, ends);
    }

-- The packet of a path discovery is, behind its first two bytes, the key prefix and the two paths
-- that the parser returns, the outbound one first, each behind the descriptor of its route, and
-- nothing more.
pub parse_path_discovery-whole :
    {F64 : Type 0} (raw : List ℕ) (found : PathDiscovery)
    → parse_path_discovery {F64 = F64} raw ≡ ok (Packet.path_discovery found)
    → (outbound : ℕ) × (inbound : ℕ) × (contact_route outbound
        ≡ (found.outbound_route, length found.outbound_path.bytes))
      × (contact_route inbound ≡ (found.inbound_route, length found.inbound_path.bytes))
      × (drop 2 raw
          ≡ found.pubkey_prefix
            ++ (outbound ∷ (found.outbound_path.bytes ++ (inbound ∷ found.inbound_path.bytes))))
unfolding parse_path_discovery
parse_path_discovery-whole raw found h =
    let (u, e, h1) = >>=-eq-ok (require_len raw 10 PacketCode.path_discovery_response) _ h in
    let (reserved, e1, h2) = >>=-eq-ok (at raw 1) _ h1 in
    let (v, e2, h3) = >>=-eq-ok (reject_if (not (reserved == 0)) _) _ h2 in
    let (prefix, e3, h4) = >>=-eq-ok (slice raw 2 8) _ h3 in
    let ((route, path, middle), e4, h5) = >>=-eq-ok (parse_discovered_path raw 8) _ h4 in
    let ((route', path', end), e5, h6) = >>=-eq-ok (parse_discovered_path raw middle) _ h5 in
    let (w, e6, h7) = >>=-eq-ok (reject_if (not (end == length raw)) _) _ h6 in
    let there = parse_discovered_path-eq-ok raw 8 route path middle e4 in
    let back = parse_discovered_path-eq-ok raw middle route' path' end e5 in
    let same : record {
      pubkey_prefix = prefix;
      outbound_route = route;
      outbound_path = path;
      inbound_route = route';
      inbound_path = path';
    }
        ≡ found =
      cc (h7) in
    let done : end ≡ length raw = ground (arith, reject_if-eq-ok _ _ e6) in
    let last : drop end raw ≡ [] = ap (λ (k : ℕ). drop k raw) done ∙ drop-length raw in
    let first : drop 2 raw ≡ prefix ++ drop 8 raw = slice-drop-back raw 2 8 prefix e3 in
    subst (Whole raw) same (
      there.descriptor,
      back.descriptor,
      there.route_is,
      back.route_is,
      joined raw prefix path.bytes path'.bytes there.descriptor back.descriptor middle end first
          there.bytes_are back.bytes_are last,
    )
