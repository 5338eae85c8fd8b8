-- ===== src/Protocol/RoundTrip/Values.antt =====
-- Settings of fixed layout: the time, the tuning parameters and the auto-add configuration.
use meshquill.Protocol.RoundTrip.Padding.{checked-payload}
use meshquill.Protocol.Command.Device.{optional_byte, hops_exceed}
use meshquill.Domain.{AutoAddConfig, TuningParams}
use meshquill.Common.Bytes.{u32_from_le-u32_to_le}
use meshquill.Protocol.Parse.Pieces.{require_exact_len, require_len}
use meshquill.Protocol.Parse.Settings.{parse_auto_add_config, parse_tuning_params}
use meshquill.Protocol.Parse.Messages.{parse_current_time}
use meshquill.Protocol.Parse.{dispatch, parse}
use meshquill.Platform.{Platform}
use meshquill.Common.{
  ap, ◌∙◌, >>=-eq-ok, Option, false, none, refl, reject_if, reject_if-eq-ok, some, at, ok, read_u32,
  take, u32_to_le, ℕ, ◌<◌, ◌^◌, ◌∷◌, ◌≡◌,
}
use meshquill.Protocol.Command.Device
use meshquill.Protocol.CommandCode.{CommandCode}
use meshquill.Protocol.Command.{Command}
use meshquill.Protocol.PacketCode.{from_u8}
use meshquill.Protocol.Packet.{Packet}

module _ (p : Platform) where
  -- A time below 2 ^ 32 that `set_time` sends is the time that the parser reads in a time packet
  -- of the same bytes.
  pub parse-set_time :
      (n : ℕ)
      → n < 2 ^ 32
      → parse p (0x09 ∷ (Device.set_time n).payload) ≡ ok (Packet.current_time n)
  unfolding parse dispatch from_u8 parse_current_time require_len at read_u32 Device.set_time
      u32_to_le
  parse-set_time n h = rw (u32_from_le-u32_to_le n h)

  -- Tuning parameters below 2 ^ 32 that `set_tuning` sends are read back from a tuning packet of
  -- the first eight of its bytes.
  pub parse-set_tuning :
      (params : TuningParams)
      → params.rx_delay < 2 ^ 32
      → params.airtime_factor < 2 ^ 32
      → parse p (0x17 ∷ take 8 (Device.set_tuning params).payload)
        ≡ ok (Packet.tuning_params params)
  unfolding parse dispatch from_u8 parse_tuning_params require_exact_len require_len at read_u32
      Device.set_tuning u32_to_le
  parse-set_tuning params h k =
      rw (u32_from_le-u32_to_le params.rx_delay h, u32_from_le-u32_to_le params.airtime_factor k)

  auto_add-parsed :
      (b : ℕ) (o : Option ℕ)
      → hops_exceed o ≡ false
      → parse p (0x19 ∷ b ∷ optional_byte o)
        ≡ ok (Packet.auto_add_config (record { config = b; max_hops = o }))
  unfolding parse dispatch from_u8 parse_auto_add_config at
  auto_add-parsed b none h = refl
  auto_add-parsed b (some m) h = rw h refl

  -- An auto-add configuration that `set_auto_add_config` accepts is read back from a packet of
  -- the same bytes.
  pub parse-set_auto_add_config :
      (config : AutoAddConfig) (command : Command)
      → Device.set_auto_add_config config ≡ ok command
      → parse p (0x19 ∷ command.payload) ≡ ok (Packet.auto_add_config config)
  unfolding Device.set_auto_add_config
  parse-set_auto_add_config config command h =
      let (u, fits, rest) = >>=-eq-ok (reject_if (hops_exceed config.max_hops) _) _ h in
      let sent : command.payload ≡ config.config ∷ optional_byte config.max_hops =
        checked-payload CommandCode.set_auto_add_config _ command rest in
      ap (λ bytes. parse p (0x19 ∷ bytes)) sent
      ∙ auto_add-parsed config.config config.max_hops (reject_if-eq-ok _ _ fits)
