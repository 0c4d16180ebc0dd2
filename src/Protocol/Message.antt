-- ===== src/Protocol/Message.antt =====
-- internal/protocol/message.go: message types, sizes, the header and the message.
use elevpn.Prelude.{ℕ, ◌-◌, ◌^◌, ◌≤◌, ◌<◌, ◌≡◌, Bool, true, ◌||◌, ◌==◌, length}
use elevpn.Bytes.{Bytes, IsByte}

-- `MessageType` is a uint8, so a header may hold any byte.
abbrev pub message_type_aloha : ℕ
message_type_aloha = 1

abbrev pub message_type_welcome : ℕ
message_type_welcome = 2

abbrev pub message_type_data : ℕ
message_type_data = 3

abbrev pub message_type_keepalive : ℕ
message_type_keepalive = 4

abbrev pub valid : ℕ → Bool
valid m =
    m == message_type_aloha
    || (m == message_type_welcome || (m == message_type_data || m == message_type_keepalive))

abbrev pub protocol_version : ℕ
protocol_version = 1

abbrev pub message_header_len : ℕ
message_header_len = 20

abbrev pub aead_tag_len : ℕ
aead_tag_len = 16

abbrev pub default_outer_mtu : ℕ
default_outer_mtu = 1500

abbrev pub outer_ipv4_header_len : ℕ
outer_ipv4_header_len = 20

abbrev pub udp_header_len : ℕ
udp_header_len = 8

abbrev pub max_payload_size : ℕ
max_payload_size =
    default_outer_mtu - outer_ipv4_header_len - udp_header_len - message_header_len - aead_tag_len

abbrev pub default_tunnel_mtu : ℕ
default_tunnel_mtu = max_payload_size

pub record Header : Type 0 where
  pub version : ℕ
  pub message_type : ℕ
  pub flags : ℕ
  pub reserved : ℕ
  pub peer_id : ℕ
  pub sequence : ℕ

pub record Message : Type 0 where
  pub header : Header
  pub open header use *
  pub payload : Bytes

-- The ranges of the Go types: uint8 and uint64.
pub record IsHeader (h : Header) : Type 0 where
  pub version_byte : IsByte h.version
  pub type_byte : IsByte h.message_type
  pub flags_byte : IsByte h.flags
  pub reserved_byte : IsByte h.reserved
  pub peer_id_u64 : h.peer_id < 2 ^ 64
  pub sequence_u64 : h.sequence < 2 ^ 64

-- What `Encode` accepts.
pub record IsSendable (m : Message) : Type 0 where
  pub header_ok : IsHeader m.header
  pub type_ok : valid m.message_type ≡ true
  pub payload_ok : length m.payload ≤ max_payload_size

-- `&protocol.Message{Header: protocol.Header{Type, PeerID, Sequence}, Payload}`: the other fields are 0.
abbrev pub new_message : ℕ → ℕ → ℕ → Bytes → Message
new_message message_type peer_id sequence payload = record {
  header = record {
    version = 0;
    message_type = message_type;
    flags = 0;
    reserved = 0;
    peer_id = peer_id;
    sequence = sequence;
  };
  payload = payload;
}
