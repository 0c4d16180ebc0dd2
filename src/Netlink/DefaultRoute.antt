-- ===== src/Netlink/DefaultRoute.antt =====
-- internal/netlink/link.go: the default route, from a dump of the routing table. The gateway is a slice of the
-- receive buffer, so it is kept as its place there and read when the function returns.
pub mod Endless
use elevpn.Prelude.{
  ℕ, zero, suc, ◌+◌, ◌-◌, Bool, not, ◌||◌, ◌==◌, ltb, leb, if◌then◌else◌, Option, none, some, List,
  [], ◌∷◌, ◌++◌, length, get_or, take, drop, replicate, Error, external, fault, wrap, wrapping,
  response_timeout, buffer_overflow, no_default_index, no_default_name, no_default_gateway,
  nlmsg_error_reply, out_of_range, Result, ok, err, ◌>>=◌, ◌>>◌,
}
use elevpn.Bytes.{Bytes, ByteOrder, ne}
use elevpn.Netlink.Wire.{
  nlmsg_hdrlen, nlmsg_error, nlmsg_done, align4, nl_msg, nlm_f_request, nlm_f_dump,
}
use elevpn.Netlink.Acks.{
  Received, datagram, interrupted, would_block, no_buffers, failed, buffer_len, unless_err,
  msg_length, msg_type, msg_seq, Kernel, open_netlink,
}
use elevpn.Netlink.RouteRequest.{rtm_newroute, rta_oif, rta_gateway, new_base_rtmsg, rtgen}
use elevpn.Netlink.InetDiag.{Dump, more, finished, return_finished}

abbrev pub rtm_getroute : ℕ
rtm_getroute = 26

-- The Go `DefaultRoute`.
pub record DefaultRoute : Type 0 where
  pub gateway : Bytes
  pub interface_name : Bytes
  pub interface_index : ℕ

-- The variable `defaultRoute` while messages come in. A nil gateway is an empty slice.
pub record Candidate : Type 0 where
  pub gateway_at : ℕ
  pub gateway_len : ℕ
  pub interface_name : Bytes
  pub interface_index : ℕ

-- `net.InterfaceByIndex`, which gives the index and the name.
abbrev pub Interfaces : Type 0
Interfaces = ℕ → Option (ℕ × Bytes)

-- What a round of the loop over attributes does: it leaves the loop, or is made again with the position moved.
pub data AttrStep : Type 0 where
  leave : AttrStep
  move_on : (moved : ℕ) → Candidate → AttrStep

abbrev pub no_candidate : Candidate
no_candidate = record { gateway_at = 0; gateway_len = 0; interface_name = []; interface_index = 0 }

abbrev unless_left :
    (ℕ → Candidate → Option (Result Candidate))
    → ℕ
    → Candidate
    → AttrStep
    → Option (Result Candidate)
unless_left rest pos c leave = some (ok c)
unless_left rest pos c (move_on moved c') = rest (pos + moved) c'

abbrev as_more : Option (Result Candidate) → Option (Result (Dump Candidate))
as_more none = none
as_more (some (ok c)) = some (ok (more c))
as_more (some (err e)) = some (err e)

abbrev and_then :
    (Candidate → Option (Result (Dump Candidate)))
    → Option (Result (Dump Candidate))
    → Option (Result (Dump Candidate))
and_then rest none = none
and_then rest (some (err e)) = some (err e)
and_then rest (some (ok (more c))) = rest c
and_then rest (some (ok (finished c))) = some (ok (finished c))

-- The datagram is written over the front of the buffer.
abbrev pub overwrite : Bytes → Bytes → Bytes
overwrite bs buf = take buffer_len bs ++ drop (length bs) buf

-- What NLMSG_DONE returns.
unfoldable pub chosen : Bytes → Candidate → Result DefaultRoute
chosen buf c =
    if c.interface_index == 0
    then err (fault no_default_index)
    else if length c.interface_name == 0
    then err (fault no_default_name)
    else if ltb c.gateway_len 4
    then err (fault no_default_gateway)
    else ok (record {
      gateway = take c.gateway_len (drop c.gateway_at buf);
      interface_name = c.interface_name;
      interface_index = c.interface_index;
    })

abbrev continue_with :
    (Candidate → Option (Result DefaultRoute))
    → Bytes
    → Option (Result (Dump Candidate))
    → Option (Result DefaultRoute)
continue_with rest buf none = none
continue_with rest buf (some (err e)) = some (err e)
continue_with rest buf (some (ok (more c))) = rest c
continue_with rest buf (some (ok (finished c))) = some (chosen buf c)

module _ (o : ByteOrder) (interfaces : Interfaces) where
  abbrev found_interface : ℕ → Candidate → Option (ℕ × Bytes) → AttrStep
  found_interface moved c none = move_on 0 c
  found_interface moved c (some (index, name)) =
      move_on moved (record c { interface_index = index; interface_name = name })

  -- The attribute at a position, of a length that was checked. A `continue` does not move on.
  unfoldable pub route_attr : Bytes → ℕ → ℕ → Candidate → AttrStep
  route_attr buf pos size c =
      let typ = ne o (take 2 (drop (pos + 2) buf)) in
      if typ == rta_oif
      then (if ltb (size - 4) 4
          then move_on 0 c
          else found_interface (align4 size) c (interfaces (ne o (take 4 (drop (pos + 4) buf)))))
      else if typ == rta_gateway
      then (if ltb (size - 4) 4
          then move_on 0 c
          else move_on (align4 size) (record c { gateway_at = pos + 4; gateway_len = size - 4 }))
      else move_on (align4 size) c

  -- A round of the loop over attributes. A slice behind the end of the buffer is a panic.
  unfoldable pub route_attr_round : Bytes → ℕ → ℕ → Candidate → Result AttrStep
  route_attr_round buf pos end c =
      let size = ne o (take 2 (drop pos buf)) in
      if ltb (length buf) (pos + 4)
      then err (fault out_of_range)
      else if ltb size 4 || ltb end (pos + size)
      then ok leave
      else if ltb (length buf) (pos + size)
      then err (fault out_of_range)
      else ok (route_attr buf pos size c)

  -- The loop over the attributes of a route. `none`: the fuel ran out.
  unfoldable pub route_attrs : ℕ → Bytes → ℕ → ℕ → Candidate → Option (Result Candidate)
  route_attrs zero buf pos end c = if ltb end (pos + 4) then some (ok c) else none
  route_attrs (suc fuel) buf pos end c =
      let next = λ (pos' : ℕ) (c' : Candidate). route_attrs fuel buf pos' end c' in
      if ltb end (pos + 4)
      then some (ok c)
      else unless_err (unless_left next pos c) (route_attr_round buf pos end c)

  -- A route: only a default route of the main table is looked at.
  unfoldable pub route_found : ℕ → Bytes → ℕ → Candidate → Option (Result Candidate)
  route_found fuel buf pos c =
      if ltb (length buf) (pos + 21)
      then some (err (fault out_of_range))
      else if not (get_or buf (pos + 17) 0 == 0) || not (get_or buf (pos + 20) 0 == 254)
      then some (ok c)
      else route_attrs fuel buf (pos + 28) (pos + msg_length o (drop pos buf)) c

  -- The body of the loop over the messages of a datagram.
  unfoldable pub route_message : ℕ → ℕ → Bytes → ℕ → Candidate → Option (Result (Dump Candidate))
  route_message fuel want buf pos c =
      let bs = drop pos buf in
      if not (msg_seq o bs == want)
      then some (ok (more c))
      else if msg_type o bs == nlmsg_done
      then some (ok (finished c))
      else if msg_type o bs == nlmsg_error
      then some (err (fault nlmsg_error_reply))
      else if msg_type o bs == rtm_newroute
      then as_more (route_found fuel buf pos c)
      else some (ok (more c))

  -- The loop over the `n` bytes of a datagram in the buffer. `none`: the fuel ran out.
  unfoldable pub route_messages :
      ℕ → ℕ → Bytes → ℕ → ℕ → Candidate → Option (Result (Dump Candidate))
  route_messages zero want buf n pos c =
      if ltb n (pos + nlmsg_hdrlen) then some (ok (more c)) else none
  route_messages (suc fuel) want buf n pos c =
      let next = λ (c' : Candidate).
        route_messages fuel want buf n (pos + align4 (msg_length o (drop pos buf))) c' in
      if ltb n (pos + nlmsg_hdrlen)
      then some (ok (more c))
      else and_then next (route_message buffer_len want buf pos c)

  -- The loop over what `Recvfrom` gives. `none`: it still waits, or does not end.
  unfoldable pub wait_default_route :
      ℕ → Bytes → Candidate → List Received → Option (Result DefaultRoute)
  wait_default_route want buf c [] = none
  wait_default_route want buf c (datagram bs ∷ later) =
      let buf' = overwrite bs buf in
      continue_with (λ c'. wait_default_route want buf' c' later) buf'
        (route_messages buffer_len want buf' (length (take buffer_len bs)) 0 c)
  wait_default_route want buf c (interrupted ∷ later) = wait_default_route want buf c later
  wait_default_route want buf c (would_block ∷ later) = some (err (fault response_timeout))
  wait_default_route want buf c (no_buffers ∷ later) = some (err (fault buffer_overflow))
  wait_default_route want buf c (failed ∷ later) = some (err (wrap external))

  unfoldable pub get_default_route : Kernel → Option (Result DefaultRoute)
  get_default_route k =
      let packet = nl_msg o 1 rtm_getroute (nlm_f_request + nlm_f_dump) (rtgen o new_base_rtmsg) in
      unless_err
        (λ (_ : Unit {0}). wait_default_route 1 (replicate buffer_len 0) no_candidate k.received)
        (open_netlink k >> (k.send packet >> wrapping k.timeout))
