-- ===== src/Protocol/Requests/Bounds.antt =====
-- What a builder accepts is a command of its selector, in at most 176 bytes.
use meshquill.Protocol.Command.{
  Command, encode, checked, command_with_key, command_with_key_suffix, without_payload,
}
use meshquill.Common.{List, ap, arith, byte, err, length, none, ok, panic, some, ℕ, ◌>>=◌, ◌≡◌, ◌≤◌}
use meshquill.Protocol.Command.Device
use meshquill.Protocol.Command.Peers
use meshquill.Protocol.Requests
use meshquill.Protocol.CommandCode.{to_u8}
use meshquill.Protocol.Command.{encode}
use meshquill.Protocol.Requests.{Built, CoreError, CommandCode, Request, build, selector}
use meshquill.Platform.{Platform}

-- Every command that the call builds has the selector `c` and fits.
record Fits (c : CommandCode) (m : Built Command) : Type 0 where
  selects : (command : Command) → m ≡ ok command → command.code ≡ c
  bounded : (command : Command) → m ≡ ok command → length command.payload ≤ 175

module _ {c : CommandCode} where
  Fits-checked : (payload : List ℕ) → Fits c (checked c payload)
  unfolding checked
  Fits-checked payload = record {
    selects = λ command h. ground arith;
    bounded = λ command h. ground arith;
  }

  Fits-err : (e : CoreError) → Fits c (err e)
  Fits-err e = record { selects = λ command h. cc; bounded = λ command h. cc }

  Fits-without_payload : Fits c (ok (without_payload c))
  unfolding without_payload
  Fits-without_payload = record {
    selects = λ command h. ground arith;
    bounded = λ command h. ground arith;
  }

  Fits-bind {ℓ} :
      {A : Type ℓ} (m : Built A) (f : A → Built Command)
      → ((a : A) → Fits c (f a))
      → Fits c (m >>= f)
  Fits-bind (ok a) f h = h a
  Fits-bind (err e) f h = Fits-err e
  Fits-bind panic f h = record { selects = λ command e. cc; bounded = λ command e. cc }

  Fits-with_key : (key prefix : List ℕ) → Fits c (command_with_key c key prefix)
  unfolding command_with_key
  Fits-with_key key prefix = search (Fits-bind, Fits-checked)

  Fits-with_key_suffix : (key suffix : List ℕ) → Fits c (command_with_key_suffix c key suffix)
  unfolding command_with_key_suffix
  Fits-with_key_suffix key suffix = search (Fits-bind, Fits-checked)

ruleset fits =
    (Fits-checked, Fits-err, Fits-without_payload, Fits-bind, Fits-with_key, Fits-with_key_suffix)

module _ (p : Platform) where
  Fits-build : (r : Request p.F64) → Fits (selector r) (build p r)
  unfolding build Device.set_advert_name Device.set_auto_add_config Device.set_coordinates
      Device.set_custom_var Device.set_default_flood_scope Device.set_device_pin
      Device.set_path_hash_mode Device.set_radio_params Device.set_tx_power Device.sign_data
      Peers.discover_path Peers.export_contact Peers.get_advert_path Peers.get_contact
      Peers.has_connection Peers.import_contact Peers.logout Peers.remove_contact Peers.reset_path
      Peers.send_login Peers.send_status_request Peers.set_channel Peers.share_contact
      Peers.update_contact Peers.send_binary_request Peers.send_anonymous_request
      Peers.send_node_discovery
  Fits-build (Requests.set_advert_name name) = search fits depth 12
  Fits-build (Requests.export_contact none) = search fits
  Fits-build (Requests.export_contact (some key)) = search fits
  Fits-build _ = search fits depth 12

  -- What a builder accepts is a command of its selector, whose encoding has at most 176 bytes and
  -- begins with the selector's byte.
  pub build_fits :
      (r : Request p.F64) (command : Command)
      → build p r ≡ ok command
      → (length (encode command) ≤ 176) × (byte (encode command) 0 ≡ to_u8 (selector r))
  unfolding encode
  build_fits r command h =
      (omega (arith, (Fits-build r).bounded command h), ap to_u8 ((Fits-build r).selects command h))
