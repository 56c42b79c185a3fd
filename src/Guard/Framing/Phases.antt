-- ===== src/Guard/Framing/Phases.antt =====
-- Where `HeaderGuard` of src/guard.rs stands in a stream of members: before a header, in one, in the
-- data behind it, or in the blocks that end the archive.
use etar.Prelude.{
  zero, suc, ℕ, ◌≤◌, ◌<◌, ◌≡◌, refl, ap, sym, ◌∙◌, subst, true, false, Option, none, some, List, [],
  ◌∷◌, ◌++◌, append-nil, Bytes, length, take, drop, ◌==◌, ok, err, inl, inr, arith,
}
use etar.Errors.{IoError}
use etar.Io.{ready, Turn}
use etar.Guard.{HeaderGuard, end_data, take_pax, close_pax, is_zero_block}
use etar.Guard.Framing.{Member, bytes_of, check_header, Accepts}
use etar.Io.Contract.{is_error}
use etar.Guard.Framing.Inspecting.{PaxPending}
use etar.Guard.Pax.{parse_pax_size}

take_nil : (n : ℕ) → take {A = ℕ} n [] ≡ []
take_nil zero = refl
take_nil (suc n) = refl

-- The members are followed by the block `end` and any bytes; `last` is the PAX size before `end`.
module _ {R : Type 0} (left : R → Bytes) (header_size : Bytes → Option ℕ) (max : ℕ)
    (last : Option ℕ) (end tail : Bytes) where
  abbrev pub stream : List Member → Bytes
  stream ms = bytes_of ms ++ (end ++ tail)

  -- In every phase but the trailer.
  pub record Common (g : HeaderGuard R) : Type 0 where
    pub size : length g.header ≡ 512
    pub no_trailer : g.trailer ≡ false
    pub same_max : g.max_metadata_bytes ≡ max

  pub record AtHeader (g : HeaderGuard R) (todo : Bytes) : Type 0 where
    pub common : Common g
    pub ms : List Member
    pub accepts : Accepts header_size max g.pax_size ms last
    pub todo_eq : todo ≡ stream ms
    pub filled_le : g.filled ≤ 512
    pub unstarted : g.emitted ≡ 0
    pub no_data : g.data_remaining ≡ 0
    pub no_end : g.next_trailer ≡ false
    pub no_body : g.pax_body ≡ none
    pub read : take g.filled g.header ++ left g.inner ≡ todo

  -- An accepted header, of which some bytes have been handed out.
  pub record Sending (g : HeaderGuard R) (todo : Bytes) : Type 0 where
    pub common : Common g
    pub body : Bytes
    pub ms : List Member
    pub next : Option ℕ
    pub accepts : Accepts header_size max next ms last
    pub full : g.filled ≡ 512
    pub emitted_lt : g.emitted < 512
    pub no_data : g.data_remaining ≡ 0
    pub no_end : g.next_trailer ≡ false
    pub long : g.next_data ≡ length body
    pub pax : PaxPending g body next
    pub read : left g.inner ≡ body ++ stream ms
    pub todo_eq : todo ≡ drop g.emitted g.header ++ left g.inner

  -- The first block of the end, of which some bytes have been handed out.
  pub record Closing (g : HeaderGuard R) (todo : Bytes) : Type 0 where
    pub common : Common g
    pub zero_end : is_zero_block end ≡ true
    pub full : g.filled ≡ 512
    pub emitted_lt : g.emitted < 512
    pub no_data : g.data_remaining ≡ 0
    pub at_end : g.next_trailer ≡ true
    pub no_body : g.pax_body ≡ none
    pub todo_eq : todo ≡ drop g.emitted g.header ++ left g.inner

  pub record InBody (g : HeaderGuard R) (todo : Bytes) : Type 0 where
    pub common : Common g
    pub body : Bytes
    pub ms : List Member
    pub next : Option ℕ
    pub accepts : Accepts header_size max next ms last
    pub empty : g.filled ≡ 0
    pub unstarted : g.emitted ≡ 0
    pub no_end : g.next_trailer ≡ false
    pub remaining : g.data_remaining ≡ length body
    pub some_left : 0 < g.data_remaining
    pub pax : PaxPending g body next
    pub read : left g.inner ≡ body ++ stream ms
    pub todo_eq : todo ≡ left g.inner

  pub record InTrailer (g : HeaderGuard R) (todo : Bytes) : Type 0 where
    pub zero_end : is_zero_block end ≡ true
    pub in_trailer : g.trailer ≡ true
    pub todo_eq : todo ≡ left g.inner

  -- `todo` is what the guard has yet to hand out.
  pub data Tracks (g : HeaderGuard R) (todo : Bytes) : Type 0 where
    at_header : AtHeader g todo → Tracks g todo
    sending : Sending g todo → 0 < g.emitted → Tracks g todo
    closing : Closing g todo → 0 < g.emitted → Tracks g todo
    in_body : InBody g todo → Tracks g todo
    in_trailer : InTrailer g todo → Tracks g todo

  -- A poll that goes on.
  pub record Goes (todo : Bytes) (t : Turn (HeaderGuard R)) : Type 0 where
    pub rest : Bytes
    pub handed : todo ≡ t.buf.filled ++ rest
    pub tracks : Tracks t.state rest
    pub calm : is_error t.poll ≡ false

  -- A poll that refuses the block behind the members, and hands out nothing.
  pub record Refuses (todo : Bytes) (t : Turn (HeaderGuard R)) : Type 0 where
    pub error : IoError
    pub polled : t.poll ≡ ready (err error)
    pub nonzero : is_zero_block end ≡ false
    pub refused : check_header header_size max last end ≡ err error
    pub nothing : t.buf.filled ≡ []
    pub at_end : todo ≡ end ++ tail

  -- The end of a member's data, or what is left of them.
  module _ (g : HeaderGuard R) (body : Bytes) (ms : List Member) (next : Option ℕ) (c : Common g)
      (accepts : Accepts header_size max next ms last) (empty : g.filled ≡ 0)
      (unstarted : g.emitted ≡ 0) (no_end : g.next_trailer ≡ false)
      (left_over : g.data_remaining ≡ length body) (pax : PaxPending g body next)
      (read : left g.inner ≡ body ++ stream ms) where
    end_data-Tracks_body :
        0 < length body → ((end_data g).1 ≡ ok tt) × Tracks (end_data g).0 (left g.inner)
    unfolding end_data
    end_data-Tracks_body some_left =
        let e : (g.data_remaining == 0) ≡ false = ground arith in
        rw e (
          refl,
          in_body (record {
            common = c;
            body = body;
            ms = ms;
            next = next;
            accepts = accepts;
            empty = empty;
            unstarted = unstarted;
            no_end = no_end;
            remaining = left_over;
            some_left = omega arith;
            pax = pax;
            read = read;
            todo_eq = refl;
          }),
        )

    -- Nothing is left, and no PAX body is open: the next header comes.
    boundary-AtHeader :
        body ≡ [] → g.pax_body ≡ none → g.pax_size ≡ next → AtHeader g (left g.inner)
    boundary-AtHeader nothing no_body size = record {
      common = c;
      ms = ms;
      accepts = subst (λ p. Accepts header_size max p ms last) (sym size) accepts;
      todo_eq = read ∙ ap (λ b. b ++ stream ms) nothing;
      filled_le = omega (arith, empty);
      unstarted = unstarted;
      no_data = left_over ∙ ap length nothing;
      no_end = no_end;
      no_body = no_body;
      read = ap (λ n. take n g.header ++ left g.inner) empty;
    }

  take_pax-Tracks :
      (g : HeaderGuard R) (o : Option Bytes) (ms : List Member) (next : Option ℕ)
      → Common g
      → Accepts header_size max next ms last
      → g.filled ≡ 0
      → g.emitted ≡ 0
      → g.next_trailer ≡ false
      → g.data_remaining ≡ 0
      → g.pax_body ≡ o
      → PaxPending g [] next
      → left g.inner ≡ stream ms
      → ((take_pax g o).1 ≡ ok tt) × Tracks (take_pax g o).0 (left g.inner)
  unfolding take_pax close_pax
  take_pax-Tracks g none ms next c accepts empty unstarted no_end no_data o (inl (none_, size))
        read =
      (
        refl,
        at_header (
            boundary-AtHeader g [] ms next c accepts empty unstarted no_end no_data
              (inl (none_, size)) read refl none_ size),
      )
  take_pax-Tracks g none ms next c accepts empty unstarted no_end no_data o (inr (b, some_, p))
        read =
      absurd (ground (arith, o, some_))
  take_pax-Tracks g (some body) ms next c accepts empty unstarted no_end no_data o
        (inl (none_, size)) read =
      absurd (ground (arith, o, none_))
  take_pax-Tracks g (some body) ms next c accepts empty unstarted no_end no_data o
        (inr (b, some_, p)) read =
      let parsed : parse_pax_size body ≡ ok next =
        ap parse_pax_size
          (cc (o, some_) ∙ (sym (append-nil b) ∙ ap (λ x. b ++ x) (sym (take_nil g.pax_remaining))))
        ∙ p in
      let g' = record g { pax_body = none; pax_size = next } in
      rw parsed (
        refl,
        at_header (
            boundary-AtHeader g' [] ms next
              (record { size = c.size; no_trailer = c.no_trailer; same_max = c.same_max }) accepts
              empty unstarted no_end no_data (inl (refl, refl)) read refl refl refl),
      )

  pub end_data-Tracks :
      (g : HeaderGuard R) (body : Bytes) (ms : List Member) (next : Option ℕ)
      → Common g
      → Accepts header_size max next ms last
      → g.filled ≡ 0
      → g.emitted ≡ 0
      → g.next_trailer ≡ false
      → g.data_remaining ≡ length body
      → PaxPending g body next
      → left g.inner ≡ body ++ stream ms
      → ((end_data g).1 ≡ ok tt) × Tracks (end_data g).0 (left g.inner)
  unfolding end_data
  end_data-Tracks g [] ms next c accepts empty unstarted no_end left_over pax read =
      let e : (g.data_remaining == 0) ≡ true = ground arith in
      rw e (
        take_pax-Tracks g g.pax_body ms next c accepts empty unstarted no_end left_over refl pax
          read)
  end_data-Tracks g (b ∷ bs) ms next c accepts empty unstarted no_end left_over pax read =
      end_data-Tracks_body g (b ∷ bs) ms next c accepts empty unstarted no_end left_over pax read
        (omega arith)
