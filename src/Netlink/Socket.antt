-- ===== src/Netlink/Socket.antt =====
-- pkg/netlink/socket.go: the operations on a netlink socket. The kernel behind it is a parameter: whether
-- it takes a request, and what it answers to a read.
pub mod Dumps
use minuteman.Base.{
  ℕ, zero, suc, ◌+◌, ◌%◌, ◌^◌, List, [], ◌∷◌, ◌++◌, drop, ◌==◌, ◌||◌, if◌then◌else◌, Bool, true,
  false, Option, none, some,
}
use minuteman.Netip.{Addr, Prefix}
use minuteman.Netlink.{
  ByteOrder, RawMsg, Error, errno, syscall_failed, Result, ok, err, message_header, walk_messages,
}
use minuteman.Netlink.Build.{
  rtm_newlink, rtm_newaddr, rtm_deladdr, rtm_newroute, rtm_delroute, nlm_f_request, nlm_f_ack,
  nlm_f_create, nlm_f_replace, nlm_f_excl, build_addr_message, build_get_addr_message,
  build_get_link_message, build_get_route_message, build_route_message, build_add_ip6_tnl_message,
  build_change_ip6_tnl_message, build_add_veth_message, build_set_link_up_message,
  build_set_link_mtu_message, build_del_link_message,
}
use minuteman.Netlink.Parse.{
  IfAddr, Link, nlmsg_error, parse_if_addr_msg, parse_if_info_msg, parse_route_prefsrc,
  parse_ack_errno,
}

pub record Kernel : Type 1 where
  pub State : Type 0
  pub send : State → List ℕ → Bool × State
  pub recv : State → Option (List ℕ) × State

-- A socket, the kernel's state with it.
pub record Socket (k : Kernel) : Type 0 where
  pub seq : ℕ
  pub kernel : k.State

abbrev pub nlmsg_done : ℕ
nlmsg_done = 3

-- ENETDOWN, ENETUNREACH and EHOSTUNREACH.
is_no_route_errno : Error → Bool
is_no_route_errno (errno n) = n == 101 || n == 113 || n == 100
is_no_route_errno e = false

-- What a message of a dump does to the loop over messages.
pub data Dump {ℓ} (A : Type ℓ) : Type ℓ where
  more : List A → Dump A
  done : List A → Dump A
  fails : Error → Dump A

module _ (o : ByteOrder) (k : Kernel) where
  abbrev next_seq : Socket k → Socket k
  next_seq s = record s { seq = (s.seq + 1) % 2 ^ 32 }

  acked : ℕ → Socket k → Option (List ℕ) × k.State → Result (Unit {0}) × Socket k
  acked seq s (none, kernel) = (err syscall_failed, record s { kernel = kernel })
  acked seq s (some b, kernel) = (parse_ack_errno o b seq, record s { kernel = kernel })

  sent : Socket k → Bool × k.State → Result (Unit {0}) × Socket k
  unfolding acked
  sent s (false, kernel) = (err syscall_failed, record s { kernel = kernel })
  sent s (true, kernel) = acked s.seq s (k.recv kernel)

  -- Of the socket whose sequence number is the request's.
  pub send_and_ack : Socket k → List ℕ → Result (Unit {0}) × Socket k
  unfolding sent
  send_and_ack s req = sent s (k.send s.kernel req)

  pub add_addr : Socket k → ℕ → Addr → ℕ → Result (Unit {0}) × Socket k
  unfolding send_and_ack
  add_addr s ifindex addr prefix_len =
      let t = next_seq s in
      send_and_ack t (
        build_addr_message o rtm_newaddr (nlm_f_request + nlm_f_ack + nlm_f_create + nlm_f_replace)
          t.seq ifindex addr prefix_len)

  pub del_addr : Socket k → ℕ → Addr → ℕ → Result (Unit {0}) × Socket k
  unfolding send_and_ack
  del_addr s ifindex addr prefix_len =
      let t = next_seq s in
      send_and_ack t
        (build_addr_message o rtm_deladdr (nlm_f_request + nlm_f_ack) t.seq ifindex addr prefix_len)

  pub add_route : Socket k → ℕ → Prefix → Result (Unit {0}) × Socket k
  unfolding send_and_ack
  add_route s ifindex dst =
      let t = next_seq s in
      send_and_ack t (
        build_route_message o rtm_newroute
          (nlm_f_request + nlm_f_ack + nlm_f_create + nlm_f_replace) t.seq ifindex dst)

  pub del_route : Socket k → ℕ → Prefix → Result (Unit {0}) × Socket k
  unfolding send_and_ack
  del_route s ifindex dst =
      let t = next_seq s in
      send_and_ack t
        (build_route_message o rtm_delroute (nlm_f_request + nlm_f_ack) t.seq ifindex dst)

  pub add_ip6_tnl : Socket k → List ℕ → Addr → Addr → ℕ → Result (Unit {0}) × Socket k
  unfolding send_and_ack
  add_ip6_tnl s name local remote mtu =
      let t = next_seq s in
      send_and_ack t (
        build_add_ip6_tnl_message o t.seq (nlm_f_request + nlm_f_ack + nlm_f_create + nlm_f_excl)
          name local remote mtu)

  pub set_ip6_tnl_endpoints : Socket k → ℕ → Addr → Addr → Result (Unit {0}) × Socket k
  unfolding send_and_ack
  set_ip6_tnl_endpoints s ifindex local remote =
      let t = next_seq s in
      send_and_ack t (build_change_ip6_tnl_message o t.seq ifindex local remote)

  pub add_veth : Socket k → List ℕ → List ℕ → ℕ → Result (Unit {0}) × Socket k
  unfolding send_and_ack
  add_veth s name peer_name mtu =
      let t = next_seq s in
      send_and_ack t (
        build_add_veth_message o t.seq (nlm_f_request + nlm_f_ack + nlm_f_create + nlm_f_excl) name
          peer_name mtu)

  pub set_link_up : Socket k → ℕ → Result (Unit {0}) × Socket k
  unfolding send_and_ack
  set_link_up s ifindex =
      let t = next_seq s in send_and_ack t (build_set_link_up_message o t.seq ifindex)

  pub set_link_mtu : Socket k → ℕ → ℕ → Result (Unit {0}) × Socket k
  unfolding send_and_ack
  set_link_mtu s ifindex mtu =
      let t = next_seq s in send_and_ack t (build_set_link_mtu_message o t.seq ifindex mtu)

  pub del_link : Socket k → ℕ → Result (Unit {0}) × Socket k
  unfolding send_and_ack
  del_link s ifindex = let t = next_seq s in send_and_ack t (build_del_link_message o t.seq ifindex)

  -- The loop over the messages of one read of a dump, the results so far in order.
  module _ {A : Type 0} (entry_type : ℕ) (parse : List ℕ → Option A) (seq : ℕ) where
    collect : List A → List ℕ → List A
    collect got payload = elim (parse payload) [ none ↦ got | some a ↦ got ++ a ∷ [] ]

    pub dump_messages : List A → List RawMsg → Dump A
    unfolding collect
    dump_messages got [] = more got
    dump_messages got (m ∷ ms) =
        let entry = dump_messages (collect got (drop message_header m.raw)) ms in
        let passed = dump_messages got ms in
        if m.type_code == nlmsg_done
        then done got
        else if m.type_code == nlmsg_error
        then elim (parse_ack_errno o m.raw seq) [ ok u ↦ passed | err e ↦ fails e ]
        else if m.type_code == entry_type
        then entry
        else passed

    -- One read: `none` is no Go value.
    pub dump_buffer : List A → List ℕ → Option (Dump A)
    unfolding dump_messages
    dump_buffer got buf = elim (walk_messages o buf) [
      | none ↦ none
      | some (err e) ↦ some (fails e)
      | some (ok ms) ↦ some (dump_messages got ms)
    ]

    dump_read : List A → Option (List ℕ) → Option (Dump A)
    unfolding dump_buffer
    dump_read got none = some (fails syscall_failed)
    dump_read got (some buf) = dump_buffer got buf

    -- The loop over reads, which goes on until the kernel says that the dump is done: `none` after as
    -- many reads as the fuel, or where a walk is out of fuel.
    pub dump_reads : ℕ → List A → k.State → Option (Result (List A)) × k.State
    unfolding dump_read
    dump_reads zero got kernel = (none, kernel)
    dump_reads (suc fuel) got kernel =
        let (r, kernel') = k.recv kernel in
        elim (dump_read got r) [
          | none ↦ (none, kernel')
          | some (fails e) ↦ (some (err e), kernel')
          | some (done all) ↦ (some (ok all), kernel')
          | some (more so_far) ↦ dump_reads fuel so_far kernel'
        ]

    dump_sent : ℕ → Socket k → Bool × k.State → Option (Result (List A)) × Socket k
    unfolding dump_reads
    dump_sent fuel s (false, kernel) = (some (err syscall_failed), record s { kernel = kernel })
    dump_sent fuel s (true, kernel) =
        let (r, kernel') = dump_reads fuel [] kernel in (r, record s { kernel = kernel' })

  pub addrs : ℕ → Socket k → ℕ → Option (Result (List IfAddr)) × Socket k
  unfolding dump_sent
  addrs fuel s ifindex =
      let t = next_seq s in
      dump_sent rtm_newaddr (λ payload. parse_if_addr_msg o payload ifindex) t.seq fuel t
        (k.send t.kernel (build_get_addr_message o t.seq))

  pub links : ℕ → Socket k → Option (Result (List Link)) × Socket k
  unfolding dump_sent
  links fuel s =
      let t = next_seq s in
      dump_sent rtm_newlink (parse_if_info_msg o) t.seq fuel t
        (k.send t.kernel (build_get_link_message o t.seq))

  -- The messages of the answer to a route query: a source, none for now, or an error.
  pub source_of : ℕ → List RawMsg → Result (Option Addr)
  unfolding is_no_route_errno
  source_of seq [] = ok none
  source_of seq (m ∷ ms) =
      let passed = source_of seq ms in
      if m.type_code == nlmsg_error
      then elim (parse_ack_errno o m.raw seq) [
        | ok u ↦ passed
        | err e ↦ if is_no_route_errno e then ok none else err e
      ]
      else if m.type_code == rtm_newroute
      then elim (parse_route_prefsrc o (drop message_header m.raw)) [
        | none ↦ passed
        | some src ↦ ok (some src)
      ]
      else passed

  source_read : ℕ → Option (List ℕ) → Option (Result (Option Addr))
  unfolding source_of
  source_read seq none = some (err syscall_failed)
  source_read seq (some buf) = elim (walk_messages o buf) [
    | none ↦ none
    | some (err e) ↦ some (err e)
    | some (ok ms) ↦ some (source_of seq ms)
  ]

  source_sent : Socket k → Bool × k.State → Option (Result (Option Addr)) × Socket k
  unfolding source_read
  source_sent s (false, kernel) = (some (err syscall_failed), record s { kernel = kernel })
  source_sent s (true, kernel) =
      let (r, kernel') = k.recv kernel in (source_read s.seq r, record s { kernel = kernel' })

  pub source_for_dest : Socket k → ℕ → Addr → Option (Result (Option Addr)) × Socket k
  unfolding source_sent
  source_for_dest s ifindex dst =
      let t = next_seq s in
      source_sent t (k.send t.kernel (build_get_route_message o t.seq ifindex dst))
