-- ===== src/Netlink/Socket/Dumps.antt =====
-- pkg/netlink/socket.go: a dump comes to the entries that the kernel lists, however it splits them into
-- reads.
use minuteman.Base.{
  ℕ, suc, ◌≡◌, ◌≢◌, refl, sym, ap, ◌∙◌, arith, List, [], ◌∷◌, ◌++◌, drop, append_assoc, append-nil,
  All, Option, none, some, Option-cases, Bool-cases, inl, inr, ◌==◌, true, false, if◌then◌else◌,
}
use minuteman.Netlink.{ByteOrder, RawMsg, ok, message_header, walk_messages}
use minuteman.Netlink.Parse.{nlmsg_error}
use minuteman.Netlink.Socket.{
  Kernel, more, done, nlmsg_done, collect, dump_messages, dump_buffer, dump_read, dump_reads,
}

-- A message of a dump that neither ends it nor is an error.
abbrev pub IsPlain : RawMsg → Type 0
IsPlain m = (m.type_code ≢ nlmsg_done) × (m.type_code ≢ nlmsg_error)

==_false : (a b : ℕ) → a ≢ b → (a == b) ≡ false
==_false a b h = ground arith

==_true : (a b : ℕ) → a ≡ b → (a == b) ≡ true
==_true a b h = ground arith

module _ (o : ByteOrder) (k : Kernel) {A : Type 0} (entry_type : ℕ) (parse : List ℕ → Option A)
    (seq : ℕ) where
  abbrev to_list : Option A → List A
  to_list none = []
  to_list (some a) = a ∷ []

  abbrev entry_of : RawMsg → List A
  entry_of m = if m.type_code == entry_type then to_list (parse (drop message_header m.raw)) else []

  -- What the messages of the entry type parse as, in order.
  pub entries_of : List RawMsg → List A
  entries_of [] = []
  entries_of (m ∷ ms) = entry_of m ++ entries_of ms

  -- The kernel, from a state on, lists these messages, in one read or more, and then says that it is done.
  pub data Dumped : k.State → List RawMsg → Type 0 where
    last :
        {s : k.State} (buf : List ℕ) (ms rest : List RawMsg) (d : RawMsg)
        → (k.recv s).0 ≡ some buf
        → walk_messages o buf ≡ some (ok (ms ++ d ∷ rest))
        → All IsPlain ms
        → d.type_code ≡ nlmsg_done
        → Dumped s ms
    part :
        {s : k.State} {all : List RawMsg} (buf : List ℕ) (ms later : List RawMsg)
        → (k.recv s).0 ≡ some buf
        → walk_messages o buf ≡ some (ok ms)
        → All IsPlain ms
        → Dumped (k.recv s).1 later
        → all ≡ ms ++ later
        → Dumped s all

  -- The number of its reads.
  pub reads : {s : k.State} {ms : List RawMsg} → Dumped s ms → ℕ
  reads (last buf ms rest m r w v e) = 1
  reads (part buf ms later r w v d e) = suc (reads d)

  entries_of-append : (xs ys : List RawMsg) → entries_of (xs ++ ys) ≡ entries_of xs ++ entries_of ys
  unfolding entries_of
  entries_of-append [] ys = refl
  entries_of-append (x ∷ xs) ys =
      ap (λ t. entry_of x ++ t) (entries_of-append xs ys)
      ∙ sym (append_assoc (entry_of x) (entries_of xs) (entries_of ys))

  collect_lem :
      (got : List A) (payload : List ℕ)
      → collect o k entry_type parse seq got payload ≡ got ++ to_list (parse payload)
  unfolding collect
  collect_lem got payload = elim (Option-cases (parse payload)) [
    | inl e ↦ rw (e, collect) (sym (append-nil got))
    | inr (a, e) ↦ rw (e, collect) refl
  ]

  -- One plain message.
  plain_step :
      (got : List A) (m : RawMsg) (ms : List RawMsg)
      → IsPlain m
      → dump_messages o k entry_type parse seq got (m ∷ ms)
        ≡ dump_messages o k entry_type parse seq (got ++ entry_of m) ms
  unfolding dump_messages
  plain_step got m ms (v, w) = elim (Bool-cases (m.type_code == entry_type)) [
    | inl e ↦
        rw (==_false _ _ v, ==_false _ _ w, e)
          (rw (collect_lem got (drop message_header m.raw)) refl)
    | inr e ↦ rw (==_false _ _ v, ==_false _ _ w, e) (rw (append-nil got) refl)
  ]

  -- Plain messages at the front of a read.
  plain_first :
      (got : List A) (ms rest : List RawMsg)
      → All IsPlain ms
      → dump_messages o k entry_type parse seq got (ms ++ rest)
        ≡ dump_messages o k entry_type parse seq (got ++ entries_of ms) rest
  unfolding entries_of
  plain_first got [] rest v = rw (append-nil got) refl
  plain_first got (m ∷ ms) rest (v, vs) =
      plain_step got m (ms ++ rest) v
      ∙ plain_first (got ++ entry_of m) ms rest vs
      ∙ rw (append_assoc got (entry_of m) (entries_of ms)) refl

  read_last :
      (got : List A) (buf : List ℕ) (ms rest : List RawMsg) (d : RawMsg)
      → walk_messages o buf ≡ some (ok (ms ++ d ∷ rest))
      → All IsPlain ms
      → d.type_code ≡ nlmsg_done
      → dump_read o k entry_type parse seq got (some buf) ≡ some (done (got ++ entries_of ms))
  unfolding dump_read dump_buffer
  read_last got buf ms rest d w v e =
      rw (w, dump_read, dump_buffer)
        (ap some
          (plain_first got ms (d ∷ rest) v ∙ (unfold dump_messages in rw (==_true _ _ e) refl)))

  read_part :
      (got : List A) (buf : List ℕ) (ms : List RawMsg)
      → walk_messages o buf ≡ some (ok ms)
      → All IsPlain ms
      → dump_read o k entry_type parse seq got (some buf) ≡ some (more (got ++ entries_of ms))
  unfolding dump_read dump_buffer
  read_part got buf ms w v =
      rw (w, dump_read, dump_buffer)
        (ap some (
          ap (dump_messages o k entry_type parse seq got) (sym (append-nil ms))
          ∙ plain_first got ms [] v
          ∙ (unfold dump_messages in refl)))

  dump_reads-Dumped :
      (got : List A) {s : k.State} {ms : List RawMsg} (d : Dumped s ms)
      → (dump_reads o k entry_type parse seq (reads d) got s).0 ≡ some (ok (got ++ entries_of ms))
  unfolding dump_reads reads
  dump_reads-Dumped got (last buf ms rest m r w v e) =
      rw (r, dump_reads) (rw (read_last got buf ms rest m w v e, dump_reads) refl)
  dump_reads-Dumped got (part buf ms later r w v d e) =
      rw (r, dump_reads)
        (rw (read_part got buf ms w v, dump_reads)
          (dump_reads-Dumped (got ++ entries_of ms) d
            ∙ ap (λ t. some (ok t))
                (append_assoc got (entries_of ms) (entries_of later)
                  ∙ ap (λ t. got ++ t) (sym (entries_of-append ms later) ∙ ap entries_of (sym e)))))

  -- A dump that the kernel sends in any number of reads, each of which splits into messages, comes to
  -- the entries among the messages before the one that says that it is done, in order.
  pub dump-entries :
      {s : k.State} {ms : List RawMsg} (d : Dumped s ms)
      → (dump_reads o k entry_type parse seq (reads d) [] s).0 ≡ some (ok (entries_of ms))
  dump-entries d = dump_reads-Dumped [] d
