-- ===== src/Protocol/Requests/Safety.antt =====
-- No builder panics on arguments of the source's types: of fixed-size arrays the length is what a
-- caller cannot get wrong.
use meshquill.Protocol.Command.{copy_into}
use meshquill.Protocol.Command.{
  Built, Command, checked, validate_text_field, refuse_nul, validate_custom_component,
  validate_range, encode_contact_route, command_with_key, command_with_key_suffix,
  scaled_coordinate,
}
use meshquill.Protocol.Requests.{Request, build}
use meshquill.Protocol.RoundTrip.Scope.{scope_copies}
use meshquill.Protocol.RoundTrip.Channel.{channel_copies}
use meshquill.Platform.{Platform}
use meshquill.Domain.{ContactRoute, MeshPath, flood, path}
use meshquill.Common.{
  replicate, ◌+◌, ◌∷◌, >>=_assoc, NoPanic-bind, none, ok, panic, some, subst, sym, ◌>>=◌, ◌≢◌, List,
  NoPanic, String, arith, length, no_panic, ℕ, ◌>>◌, ◌≡◌, ◌≤◌,
}
use meshquill.Protocol.Command.Device
use meshquill.Protocol.Command.Peers
use meshquill.Protocol.Command.{refuse_nul, validate_text_field, Built, Command, checked}
use meshquill.Protocol.Requests
use meshquill.Protocol.Requests.{Text, Request, build}
use meshquill.Protocol.CommandCode.{CommandCode}

-- The secret of a channel and the key of a flood scope are `[u8; 16]`.
abbrev pub WellTyped : {F64 : Type 0} → Request F64 → Type 0
WellTyped (Requests.set_channel idx name secret) = length secret ≡ 16
WellTyped (Requests.set_default_flood_scope name key) = length key ≡ 16
WellTyped _ = Unit

NoPanic-checked : (code : CommandCode) (payload : List ℕ) → NoPanic (checked code payload)
unfolding checked
NoPanic-checked code payload = search no_panic

validate_text_field-eq-ok :
    (value : Text) (maximum : ℕ) (f : String) {u : Unit {0}}
    → validate_text_field value maximum f ≡ ok u
    → length value ≤ maximum
unfolding validate_text_field
validate_text_field-eq-ok value maximum f h = ground arith

NoPanic-validate_text_field :
    (value : Text) (maximum : ℕ) (f : String) → NoPanic (validate_text_field value maximum f)
unfolding validate_text_field
NoPanic-validate_text_field value maximum f = search no_panic

NoPanic-refuse_nul : (value : Text) (f : String) → NoPanic (refuse_nul value f)
unfolding refuse_nul
NoPanic-refuse_nul value f = search no_panic

-- A name is copied only if the checks in front have let it pass.
NoPanic-named :
    (name : Text) (maximum : ℕ) (f : String) (rest : Built Command)
    → (length name ≤ maximum → NoPanic rest)
    → NoPanic (validate_text_field name maximum f >> (refuse_nul name f >> rest))
NoPanic-named name maximum f rest h =
    NoPanic-bind (validate_text_field name maximum f) _ (NoPanic-validate_text_field name maximum f)
      (λ u e.
        NoPanic-bind (refuse_nul name f) _ (NoPanic-refuse_nul name f)
          (λ v e'. h (validate_text_field-eq-ok name maximum f e)))

-- Two copies that go well, and what `checked` makes of them.
NoPanic-copies :
    (first : Built (List ℕ)) (second : List ℕ → Built (List ℕ)) (code : CommandCode)
    {payload : List ℕ}
    → (first >>= second) ≡ ok payload
    → NoPanic (first >>= λ named. second named >>= checked code)
NoPanic-copies first second code {payload} h =
    subst NoPanic (sym (>>=_assoc first second (checked code))) (
      NoPanic-bind (first >>= second) (checked code) (record { ne = λ e. cc })
        (λ a e. NoPanic-checked code a))

NoPanic-set_channel :
    (idx : ℕ) (name : Text) (secret : List ℕ)
    → length secret ≡ 16
    → NoPanic (Peers.set_channel idx name secret)
unfolding Peers.set_channel
NoPanic-set_channel idx name secret h = NoPanic-named name 31 "name" _ (λ fits.
    NoPanic-copies (copy_into (idx ∷ replicate 48 0) 1 (length name + 1) name)
      (λ named. copy_into named 33 49 secret) CommandCode.set_channel
      (channel_copies idx name secret fits h))

NoPanic-set_default_flood_scope :
    (name : Text) (key : List ℕ)
    → length key ≡ 16
    → NoPanic (Device.set_default_flood_scope name key)
unfolding Device.set_default_flood_scope
NoPanic-set_default_flood_scope name key h = NoPanic-named name 30 "name" _ (λ fits.
    NoPanic-copies (copy_into (replicate 47 0) 0 (length name) name)
      (λ named. copy_into named 31 47 key) CommandCode.set_default_flood_scope
      (scope_copies name key fits h))

NoPanic-validate_custom_component :
    (value : Text) (f : String) → NoPanic (validate_custom_component value f)
unfolding validate_custom_component
NoPanic-validate_custom_component value f = search (no_panic, NoPanic-validate_text_field)

NoPanic-validate_range :
    (value minimum maximum : ℕ) (f : String) → NoPanic (validate_range value minimum maximum f)
unfolding validate_range
NoPanic-validate_range value minimum maximum f = search no_panic

NoPanic-encode_contact_route :
    (route : ContactRoute) (p : MeshPath) → NoPanic (encode_contact_route route p)
unfolding encode_contact_route
NoPanic-encode_contact_route flood p = search no_panic
NoPanic-encode_contact_route (path m n) p = search no_panic

NoPanic-command_with_key :
    (code : CommandCode) (key prefix : List ℕ) → NoPanic (command_with_key code key prefix)
unfolding command_with_key
NoPanic-command_with_key code key prefix = search (no_panic, NoPanic-checked)

NoPanic-command_with_key_suffix :
    (code : CommandCode) (key suffix : List ℕ) → NoPanic (command_with_key_suffix code key suffix)
unfolding command_with_key_suffix
NoPanic-command_with_key_suffix code key suffix = search (no_panic, NoPanic-checked)

module _ (p : Platform) where
  NoPanic-scaled_coordinate :
      (value minimum maximum : p.F64) (f : String)
      → NoPanic (scaled_coordinate p value minimum maximum f)
  unfolding scaled_coordinate
  NoPanic-scaled_coordinate value minimum maximum f = search no_panic

ruleset buildable = (
  no_panic, NoPanic-checked, NoPanic-validate_text_field, NoPanic-refuse_nul, NoPanic-set_channel,
  NoPanic-set_default_flood_scope, NoPanic-validate_custom_component, NoPanic-validate_range,
  NoPanic-encode_contact_route, NoPanic-command_with_key, NoPanic-command_with_key_suffix,
  NoPanic-scaled_coordinate,
)

module _ (p : Platform) where
  NoPanic-build : (r : Request p.F64) → WellTyped r → NoPanic (build p r)
  unfolding build Device.set_advert_name Device.set_auto_add_config Device.set_coordinates
      Device.set_custom_var Device.set_device_pin Device.set_path_hash_mode Device.set_radio_params
      Device.set_tx_power Device.sign_data Peers.discover_path Peers.export_contact
      Peers.get_advert_path Peers.get_contact Peers.has_connection Peers.import_contact Peers.logout
      Peers.remove_contact Peers.reset_path Peers.send_login Peers.send_status_request
      Peers.share_contact Peers.update_contact Peers.send_binary_request
      Peers.send_anonymous_request Peers.send_node_discovery
  NoPanic-build (Requests.export_contact none) h = search buildable
  NoPanic-build (Requests.export_contact (some key)) h = search buildable
  NoPanic-build _ h = search buildable depth 14

  -- No builder panics, where the secret of a channel and the key of a flood scope have the 16 bytes
  -- of their type.
  pub build-ne-panic : (r : Request p.F64) → WellTyped r → build p r ≢ panic
  build-ne-panic r h = (NoPanic-build r h).ne
