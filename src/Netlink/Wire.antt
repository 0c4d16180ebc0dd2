-- ===== src/Netlink/Wire.antt =====
-- internal/netlink/socket.go: how a netlink message and its attributes are laid out. The constants are
-- those of golang.org/x/sys/unix, which are numbers of the kernel's interface.
pub mod Read
pub mod Attrs
use elevpn.Prelude.{ℕ, ◌+◌, ◌-◌, ◌*◌, ◌/◌, [], ◌∷◌, ◌++◌, length, replicate, bit_or}
use elevpn.Bytes.{Bytes, ByteOrder, put_be, put_ne}

abbrev pub nlmsg_hdrlen : ℕ
nlmsg_hdrlen = 16

abbrev pub nlmsg_error : ℕ
nlmsg_error = 2

abbrev pub nlmsg_done : ℕ
nlmsg_done = 3

abbrev pub nlm_f_request : ℕ
nlm_f_request = 0x1

abbrev pub nlm_f_ack : ℕ
nlm_f_ack = 0x4

abbrev pub nlm_f_replace : ℕ
nlm_f_replace = 0x100

abbrev pub nlm_f_excl : ℕ
nlm_f_excl = 0x200

abbrev pub nlm_f_create : ℕ
nlm_f_create = 0x400

abbrev pub nlm_f_append : ℕ
nlm_f_append = 0x800

abbrev pub nlm_f_dump : ℕ
nlm_f_dump = 0x300

abbrev pub nla_f_nested : ℕ
nla_f_nested = 0x8000

-- `(n + 3) &^ 3`: the two low bits of n + 3 are cleared.
unfoldable pub align4 : ℕ → ℕ
align4 n = (n + 3) / 4 * 4

-- A text is the list of its bytes.
unfoldable pub zstr : Bytes → Bytes
zstr s = s ++ (0 ∷ [])

unfoldable pub be32 : ℕ → Bytes
be32 v = put_be 4 v

-- The number is the bit pattern of the int32.
unfoldable pub be_s32 : ℕ → Bytes
be_s32 v = put_be 4 v

module _ (o : ByteOrder) where
  unfoldable pub nl_msg : ℕ → ℕ → ℕ → Bytes → Bytes
  nl_msg seq msg_type flags payload =
      put_ne o 4 (nlmsg_hdrlen + length payload)
      ++ (put_ne o 2 msg_type
          ++ (put_ne o 2 flags ++ (put_ne o 4 seq ++ (put_ne o 4 0 ++ payload))))

  -- The length in the attribute is that without the padding, cut to 16 bits.
  unfoldable pub put_attr : Bytes → ℕ → Bytes → Bytes
  put_attr buf typ payload =
      let length' = 4 + length payload in
      buf
      ++ (put_ne o 2 length'
          ++ (put_ne o 2 typ ++ (payload ++ replicate (align4 length' - length') 0)))

  unfoldable pub put_nest_attr : Bytes → ℕ → Bytes → Bytes
  put_nest_attr buf typ nested = put_attr buf (bit_or typ nla_f_nested) nested

  -- The attribute type is NFTA_DATA_VALUE.
  unfoldable pub data_value : Bytes → Bytes
  data_value v = put_attr [] 1 v
