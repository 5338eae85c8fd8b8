-- ===== src/Protocol/PacketCode.antt =====
-- crates/meshquill-core/src/protocol.rs: the packet selectors.
use meshquill.Common.{ℕ, ◌≡◌, refl, List, [], ◌∷◌, arith, arm, arm_inv}

pub data PacketCode : Type 0 where
  ok error contact_start contact contact_end self_info msg_sent contact_msg_recv : PacketCode
  channel_msg_recv current_time no_more_msgs contact_uri battery device_info private_key :
      PacketCode
  disabled contact_msg_recv_v3 channel_msg_recv_v3 channel_info sign_start signature : PacketCode
  custom_vars advert_path tuning_params stats autoadd_config allowed_repeat_freq : PacketCode
  channel_data_recv default_flood_scope advertisement path_update ack messages_waiting : PacketCode
  raw_data login_success login_failed status_response log_data trace_data new_advert : PacketCode
  telemetry_response binary_response path_discovery_response control_data : PacketCode
  contact_deleted contacts_full : PacketCode
  unknown : ℕ → PacketCode

unfoldable pub to_u8 : PacketCode → ℕ
to_u8 ok = 0x00
to_u8 error = 0x01
to_u8 contact_start = 0x02
to_u8 contact = 0x03
to_u8 contact_end = 0x04
to_u8 self_info = 0x05
to_u8 msg_sent = 0x06
to_u8 contact_msg_recv = 0x07
to_u8 channel_msg_recv = 0x08
to_u8 current_time = 0x09
to_u8 no_more_msgs = 0x0a
to_u8 contact_uri = 0x0b
to_u8 battery = 0x0c
to_u8 device_info = 0x0d
to_u8 private_key = 0x0e
to_u8 disabled = 0x0f
to_u8 contact_msg_recv_v3 = 0x10
to_u8 channel_msg_recv_v3 = 0x11
to_u8 channel_info = 0x12
to_u8 sign_start = 0x13
to_u8 signature = 0x14
to_u8 custom_vars = 0x15
to_u8 advert_path = 0x16
to_u8 tuning_params = 0x17
to_u8 stats = 0x18
to_u8 autoadd_config = 0x19
to_u8 allowed_repeat_freq = 0x1a
to_u8 channel_data_recv = 0x1b
to_u8 default_flood_scope = 0x1c
to_u8 advertisement = 0x80
to_u8 path_update = 0x81
to_u8 ack = 0x82
to_u8 messages_waiting = 0x83
to_u8 raw_data = 0x84
to_u8 login_success = 0x85
to_u8 login_failed = 0x86
to_u8 status_response = 0x87
to_u8 log_data = 0x88
to_u8 trace_data = 0x89
to_u8 new_advert = 0x8a
to_u8 telemetry_response = 0x8b
to_u8 binary_response = 0x8c
to_u8 path_discovery_response = 0x8d
to_u8 control_data = 0x8e
to_u8 contact_deleted = 0x8f
to_u8 contacts_full = 0x90
to_u8 (unknown value) = value

-- The arms of the match on the code, in order; any other code is `unknown`.
abbrev arms : List (ℕ × PacketCode)
arms =
    (0x00, ok)
    ∷ (0x01, error)
    ∷ (0x02, contact_start)
    ∷ (0x03, contact)
    ∷ (0x04, contact_end)
    ∷ (0x05, self_info)
    ∷ (0x06, msg_sent)
    ∷ (0x07, contact_msg_recv)
    ∷ (0x08, channel_msg_recv)
    ∷ (0x09, current_time)
    ∷ (0x0a, no_more_msgs)
    ∷ (0x0b, contact_uri)
    ∷ (0x0c, battery)
    ∷ (0x0d, device_info)
    ∷ (0x0e, private_key)
    ∷ (0x0f, disabled)
    ∷ (0x10, contact_msg_recv_v3)
    ∷ (0x11, channel_msg_recv_v3)
    ∷ (0x12, channel_info)
    ∷ (0x13, sign_start)
    ∷ (0x14, signature)
    ∷ (0x15, custom_vars)
    ∷ (0x16, advert_path)
    ∷ (0x17, tuning_params)
    ∷ (0x18, stats)
    ∷ (0x19, autoadd_config)
    ∷ (0x1a, allowed_repeat_freq)
    ∷ (0x1b, channel_data_recv)
    ∷ (0x1c, default_flood_scope)
    ∷ (0x80, advertisement)
    ∷ (0x81, path_update)
    ∷ (0x82, ack)
    ∷ (0x83, messages_waiting)
    ∷ (0x84, raw_data)
    ∷ (0x85, login_success)
    ∷ (0x86, login_failed)
    ∷ (0x87, status_response)
    ∷ (0x88, log_data)
    ∷ (0x89, trace_data)
    ∷ (0x8a, new_advert)
    ∷ (0x8b, telemetry_response)
    ∷ (0x8c, binary_response)
    ∷ (0x8d, path_discovery_response)
    ∷ (0x8e, control_data)
    ∷ (0x8f, contact_deleted)
    ∷ (0x90, contacts_full)
    ∷ []

unfoldable pub from_u8 : ℕ → PacketCode
from_u8 code = arm arms code (unknown code)

abbrev pub IsListed : PacketCode → Type 0
IsListed (unknown value) = ⊥
IsListed _ = Unit

-- Every byte is the code of the variant that it is read as.
pub to_u8-from_u8 : (code : ℕ) → to_u8 (from_u8 code) ≡ code
unfolding to_u8 from_u8
to_u8-from_u8 code = arm_inv (λ n c. to_u8 c ≡ n) arms code (unknown code) (omega arith) refl

-- Every variant but `unknown` is read back from its code.
pub from_u8-to_u8 : (c : PacketCode) → IsListed c → from_u8 (to_u8 c) ≡ c
unfolding to_u8 from_u8
from_u8-to_u8 (unknown value) h = absurd h
from_u8-to_u8 _ h = refl
