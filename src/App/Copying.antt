-- ===== src/App/Copying.antt =====
-- A file from the pieces that the server sends to the copy that the client writes.
use mathlib.Core.List.{append-nil, append_assoc}
use mathlib.Core.Path.{subst}
use native.Mathlib.Nat.{mod-eq_of_lt, mod-eq-sub-mod}
use libiocp.Base.{
  ℕ, zero, suc, ◌+◌, ◌-◌, ◌%◌, ◌≤◌, ◌<◌, ◌≡◌, ◌≢◌, refl, sym, ap, ◌∙◌, Bool, true, false, List, [],
  ◌∷◌, ◌++◌, Option, some, arith, length, take, drop, min, if◌then◌else◌, length-take, length-drop,
  length-append, take_all, take-drop, drop-drop, drop_all, take_front, drop_front, dec_lt, dec_le,
  ℤ,
}
use libiocp.App.Server.{ServerData, fresh, read, read_at, next_message}
use libiocp.App.Client.{ClientData, Files, copy_count, take_package, fwrite, fclose}

module _ (bytes : List ℕ) (piece : ℕ) (junk : List ℕ) (fopen : ℤ → ℕ → Option ℕ) where
  -- The messages with which the server answers the next `n` times that a client says "ok".
  pub serve : ℕ → ServerData → List (List ℕ)
  serve zero d = []
  serve (suc n) d =
      let (message, next) = next_message (some bytes) piece junk d in message ∷ serve n next

  -- The first `n` messages of the server to a session: that of `on_connected`, which is sent as it is
  -- read, and those behind it.
  pub serve_all : ℕ → List (List ℕ)
  serve_all zero = []
  serve_all (suc n) =
      let (message, next) = read (some bytes) piece junk fresh in message ∷ serve n next

  -- A client that takes the messages one after the other, until it stops.
  pub eat : List (List ℕ) → ClientData → Files → ClientData × Files × Bool
  eat [] c f = (c, f, true)
  eat (m ∷ ms) c f =
      let (d, g, goes_on) = take_package fopen (length m) (record c { buf = m }) f in
      let rest = eat ms d g in if goes_on then rest else (d, g, false)

  -- A message that is a piece of the file.
  piece_next :
      (d : ServerData)
      → 0 < piece
      → d.at < length bytes
      → next_message (some bytes) piece junk d ≡ (
        take piece (drop d.at bytes),
        record d { at = d.at + min piece (length bytes - d.at); id = d.id + 1 },
      )
  unfolding next_message
  piece_next d pos lt = ground (arith, length-take piece (drop d.at bytes), length-drop d.at bytes)

  -- The message behind the last piece.
  end_next :
      (d : ServerData)
      → length bytes ≤ d.at
      → next_message (some bytes) piece junk d
        ≡ (48 ∷ [], record d { at = 0; count = d.count + 1; id = d.id + 1 })
  unfolding next_message
  end_next d le = ground (arith, length-take piece (drop d.at bytes), length-drop d.at bytes)

  -- A client writes a package of more or less than one byte to the file.
  eat_piece :
      (m : List ℕ) (c : ClientData) (f : Files)
      → length m ≢ 1
      → take_package fopen (length m) (record c { buf = m }) f
        ≡ (record c { buf = m }, fwrite c.pf m f, true)
  unfolding take_package
  eat_piece m c f ne = ground (arith, take_all (length m) m (omega arith))

  eat_end :
      (m : List ℕ) (c : ClientData) (f : Files)
      → length m ≡ 1
      → c.count + 1 < copy_count
      → take_package fopen (length m) (record c { buf = m }) f ≡ (
        record c { buf = m; count = c.count + 1; pf = fopen c.id (c.count + 1); at = 0 },
        fclose c.pf f,
        true,
      )
  unfolding take_package
  eat_end m c f one more = ground arith

  next_data : ServerData → ServerData
  next_data d = record d { at = d.at + min piece (length bytes - d.at); id = d.id + 1 }

  -- Where the server has another piece and the client writes it.
  piece_step :
      (n : ℕ) (d : ServerData) (c : ClientData) (f : Files)
      → 0 < piece
      → d.at < length bytes
      → length (take piece (drop d.at bytes)) ≢ 1
      → let m = take piece (drop d.at bytes) in
        eat (serve (suc n) d) c f
        ≡ eat (serve n (next_data d)) (record c { buf = m }) (fwrite c.pf m f)
  unfolding eat serve next_data
  piece_step n d c f pos lt ne =
      rw (piece_next d pos lt) (rw (eat_piece (take piece (drop d.at bytes)) c f ne) refl)

  pieces_whole :
      (n k : ℕ) → take n (drop k bytes) ++ drop (k + min n (length bytes - k)) bytes ≡ drop k bytes
  pieces_whole n k =
      ap (◌++◌ (take n (drop k bytes))) (sym (drop-drop (min n (length bytes - k)) k bytes) ∙ same)
      ∙ take-drop n (drop k bytes)
    where
      same : drop (min n (length bytes - k)) (drop k bytes) ≡ drop n (drop k bytes)
      same = elim (dec_le n (length bytes - k)) [
        | yes le ↦
            let e : min n (length bytes - k) ≡ n = omega arith in ap (λ j. drop j (drop k bytes)) e
        | no gt ↦
            drop_all (min n (length bytes - k)) (drop k bytes) (omega (arith, length-drop k bytes))
            ∙ sym (drop_all n (drop k bytes) (omega (arith, length-drop k bytes)))
      ]

  -- The client has closed the copy `h`, to which `part` has been written, and goes on with the next.
  pub record Copied (c : ClientData) (f : Files) (h : ℕ) (part : List ℕ)
      (e : ClientData × Files × Bool) : Type 0 where
    pub written : e.1.written h ≡ f.written h ++ part
    pub shut : e.1.fclosed ≡ f.fclosed ++ h ∷ []
    pub count : e.0.count ≡ c.count + 1
    pub next_file : e.0.pf ≡ fopen c.id (c.count + 1)
    pub goes_on : e.2 ≡ true

  Copied-piece :
      (c : ClientData) (f : Files) (h : ℕ) (m part : List ℕ) (e : ClientData × Files × Bool)
      → c.pf ≡ some h
      → Copied (record c { buf = m }) (fwrite c.pf m f) h part e
      → Copied c f h (m ++ part) e
  Copied-piece c f h m part e open_file v = record {
    written = v.written ∙ wrote;
    shut = v.shut ∙ kept;
    count = v.count;
    next_file = v.next_file;
    goes_on = v.goes_on;
  }
    where
      wrote : (fwrite c.pf m f).written h ++ part ≡ f.written h ++ (m ++ part)
      wrote = rw open_file (ground (arith, append_assoc (f.written h) m part))

      kept : (fwrite c.pf m f).fclosed ++ h ∷ [] ≡ f.fclosed ++ h ∷ []
      kept = rw open_file refl

  Copied-end :
      (d : ServerData) (c : ClientData) (f : Files) (h : ℕ)
      → length bytes ≤ d.at
      → c.pf ≡ some h
      → c.count + 1 < copy_count
      → Copied c f h [] (eat (serve 1 d) c f)
  unfolding eat serve
  Copied-end d c f h over open_file more =
      rw (end_next d over, eat_end (48 ∷ []) c f refl more)
        (record {
          written = rw open_file (sym (append-nil (f.written h)));
          shut = rw open_file refl;
          count = refl;
          next_file = refl;
          goes_on = refl;
        })

  -- What is left of the file shrinks by whole pieces.
  rest_mod :
      (r : ℕ) → 2 ≤ piece → r % piece ≢ 1 → (min piece r ≢ 1) × ((r - min piece r) % piece ≢ 1)
  rest_mod r big ne = elim (dec_le piece r) [
    | yes le ↦
        let e : min piece r ≡ piece = omega arith in
        (
          λ one. omega (arith, e),
          λ one.
              ne (mod-eq-sub-mod {n = r} {m = piece} le ∙ ap (λ j. (r - j) % piece) (sym e) ∙ one),
        )
    | no gt ↦
        let e : min piece r ≡ r = omega arith in
        let z : r - min piece r ≡ 0 = omega arith in
        (
          λ one. ne (mod-eq_of_lt {n = r} {m = piece} (omega arith) ∙ sym e ∙ one),
          λ one. omega (
            arith,
            mod-eq_of_lt {n = 0} {m = piece} (omega arith),
            sym (ap (λ j. j % piece) z) ∙ one,
          ),
        )
  ]

  -- A piece, and what the messages behind it do.
  Copied-step :
      (n : ℕ) (d : ServerData) (c : ClientData) (f : Files) (h : ℕ) (m part whole : List ℕ)
      → 0 < piece
      → d.at < length bytes
      → m ≡ take piece (drop d.at bytes)
      → length m ≢ 1
      → m ++ part ≡ whole
      → c.pf ≡ some h
      → Copied
          (record c { buf = m })
          (fwrite c.pf m f)
          h
          part
          (eat (serve n (next_data d)) (record c { buf = m }) (fwrite c.pf m f))
      → Copied c f h whole (eat (serve (suc n) d) c f)
  Copied-step n d c f h m part whole pos lt e ne joined open_file v =
      subst (λ xs. Copied c f h xs (eat (serve (suc n) d) c f)) joined
        (subst (Copied c f h (m ++ part)) (sym step) (Copied-piece c f h m part _ open_file v))
    where
      step :
          eat (serve (suc n) d) c f
          ≡ eat (serve n (next_data d)) (record c { buf = m }) (fwrite c.pf m f)
      step = rw e (piece_step n d c f pos lt (λ one. ne (ap length e ∙ one)))

  -- What is left of the file reaches the copy.
  copied :
      (k : ℕ) (d : ServerData) (c : ClientData) (f : Files) (h : ℕ)
      → length bytes - d.at ≤ k
      → d.at ≤ length bytes
      → 2 ≤ piece
      → (length bytes - d.at) % piece ≢ 1
      → c.pf ≡ some h
      → c.count + 1 < copy_count
      → (n : ℕ) × Copied c f h (drop d.at bytes) (eat (serve n d) c f)
  unfolding next_data
  copied zero d c f h le inside big rest open_file more =
      (1, rw (drop_all d.at bytes (omega arith)) (Copied-end d c f h (omega arith) open_file more))
  copied (suc k) d c f h le inside big rest open_file more = elim (dec_lt d.at (length bytes)) [
    | no over ↦ (
      1,
      rw (drop_all d.at bytes (omega arith)) (Copied-end d c f h (omega arith) open_file more),
    )
    | yes lt ↦
        let m = take piece (drop d.at bytes) in
        let (whole, later) = rest_mod (length bytes - d.at) big rest in
        let size : length m ≡ min piece (length bytes - d.at) =
          omega (arith, length-take piece (drop d.at bytes), length-drop d.at bytes) in
        let (n, v) =
          copied k (next_data d) (record c { buf = m }) (fwrite c.pf m f) h (omega arith)
            (omega arith) big (λ one. later (ap (λ j. j % piece) (ends d.at) ∙ one)) open_file
            more in
        (
          suc n,
          Copied-step n d c f h m _ _ (omega arith) lt refl (λ one. whole (sym size ∙ one))
              (pieces_whole piece d.at) open_file v,
        )
  ]
    where
      ends :
          (at : ℕ)
          → length bytes - at - min piece (length bytes - at)
            ≡ length bytes - (at + min piece (length bytes - at))
      ends at = omega arith

  -- The server once it has sent the first piece.
  first_data : ServerData
  first_data = record fresh { at = min piece (length bytes) }

  read_first :
      0 < piece
      → 0 < length bytes
      → read (some bytes) piece junk fresh ≡ (take piece bytes, first_data)
  unfolding read read_at first_data
  read_first pos some_bytes = ground (arith, length-take piece bytes)

  first_step :
      (n : ℕ) (c : ClientData) (f : Files)
      → 0 < piece
      → 0 < length bytes
      → length (take piece bytes) ≢ 1
      → eat (serve_all (suc n)) c f
        ≡ eat
            (serve n first_data)
            (record c { buf = take piece bytes })
            (fwrite c.pf (take piece bytes) f)
  unfolding eat serve_all
  first_step n c f pos some_bytes ne =
      rw (read_first pos some_bytes) (rw (eat_piece (take piece bytes) c f ne) refl)

  -- From `on_connected` on, the first copy of a client holds the whole file once the server has sent
  -- all pieces: it has been closed once, nothing was lost or repeated, and the client goes on with the
  -- next copy. The file is not empty, which the server asserts, the pieces are of two bytes or more,
  -- and the last is not of one byte.
  pub copy_whole :
      (c : ClientData) (f : Files) (h : ℕ)
      → 2 ≤ piece
      → length bytes % piece ≢ 1
      → 0 < length bytes
      → c.pf ≡ some h
      → c.count + 1 < copy_count
      → (n : ℕ) × Copied c f h bytes (eat (serve_all n) c f)
  unfolding first_data
  copy_whole c f h big last some_bytes open_file more =
      let m = take piece bytes in
      let (whole, later) = rest_mod (length bytes) big last in
      let size : length m ≡ min piece (length bytes) = length-take piece bytes in
      let ne : length m ≢ 1 = λ one. whole (sym size ∙ one) in
      let (n, v) =
        copied (length bytes) first_data (record c { buf = m }) (fwrite c.pf m f) h (omega arith)
          (omega arith) big later open_file more in
      let from_start : min piece (length bytes) ≡ 0 + min piece (length bytes - 0) = omega arith in
      let step = first_step n c f (omega arith) some_bytes ne in
      let joined : m ++ drop (min piece (length bytes)) bytes ≡ bytes =
        ap (λ k. m ++ drop k bytes) from_start ∙ pieces_whole piece 0 in
      (
        suc n,
        subst (λ xs. Copied c f h xs (eat (serve_all (suc n)) c f)) joined
            (subst (Copied c f h (m ++ drop first_data.at bytes)) (sym step)
              (Copied-piece c f h m _ _ open_file v)),
      )

  -- A last piece of one byte.
  one_left :
      (d : ServerData) (c : ClientData) (f : Files) (h x : ℕ)
      → 2 ≤ piece
      → drop d.at bytes ≡ x ∷ []
      → c.pf ≡ some h
      → c.count + 1 < copy_count
      → Copied c f h [] (eat (serve 1 d) c f)
  unfolding eat serve next_data
  one_left d c f h x big left open_file more =
      rw (sent, eat_end (x ∷ []) c f refl more)
        (record {
          written = rw open_file (sym (append-nil (f.written h)));
          shut = rw open_file refl;
          count = refl;
          next_file = refl;
          goes_on = refl;
        })
    where
      sent : next_message (some bytes) piece junk d ≡ (x ∷ [], next_data d)
      sent =
          piece_next d (omega arith) (omega (arith, length-drop d.at bytes, ap length left))
          ∙ ap (λ p. (p, next_data d))
              (ap (take piece) left ∙ take_all piece (x ∷ []) (omega arith))

  -- What is left of the file up to its last byte reaches the copy.
  all_but_last :
      (k : ℕ) (d : ServerData) (c : ClientData) (f : Files) (h : ℕ) (body : List ℕ) (x : ℕ)
      → length body ≤ k
      → 2 ≤ piece
      → length body % piece ≡ 0
      → drop d.at bytes ≡ body ++ x ∷ []
      → c.pf ≡ some h
      → c.count + 1 < copy_count
      → (n : ℕ) × Copied c f h body (eat (serve n d) c f)
  unfolding next_data
  all_but_last k d c f h [] x le big whole left open_file more =
      (1, one_left d c f h x big left open_file more)
  all_but_last zero d c f h (y ∷ ys) x le big whole left open_file more = absurd (omega arith)
  all_but_last (suc k) d c f h (y ∷ ys) x le big whole left open_file more =
      let body = y ∷ ys in
      let at_most = full_piece (length body) (omega arith) whole in
      let size : min piece (length bytes - d.at) ≡ piece = omega (arith, remains, at_most) in
      let (n, v) =
        all_but_last k (next_data d) (record c { buf = take piece body })
          (fwrite c.pf (take piece body) f) h (drop piece body) x
          (omega (arith, length-drop piece body)) big
          (ap (λ j. j % piece) (length-drop piece body)
            ∙ sym (mod-eq-sub-mod {n = length body} {m = piece} at_most)
            ∙ whole)
          (ap (λ j. drop j bytes) (ap (◌+◌ d.at) size)
            ∙ sym (drop-drop piece d.at bytes)
            ∙ ap (drop piece) left
            ∙ drop_front piece body (x ∷ []) at_most)
          open_file more in
      (
        suc n,
        Copied-step n d c f h (take piece body) (drop piece body) body (omega arith)
            (omega (arith, remains))
            (sym (take_front piece body (x ∷ []) at_most) ∙ ap (take piece) (sym left))
            (omega (arith, length-take piece body, at_most)) (take-drop piece body) open_file v,
      )
    where
      remains : length bytes - d.at ≡ length (y ∷ ys) + 1
      remains =
          omega (arith, length-drop d.at bytes, ap length left, length-append (y ∷ ys) (x ∷ []))

      full_piece : (r : ℕ) → 0 < r → r % piece ≡ 0 → piece ≤ r
      full_piece r some_left e = elim (dec_le piece r) [
        | yes at_most ↦ at_most
        | no gt ↦ omega (arith, sym (mod-eq_of_lt {n = r} {m = piece} (omega arith)) ∙ e)
      ]

  -- Where one byte of the file is left for the last piece, the client takes this piece for the end of
  -- the file: it closes the copy, and goes on with the next, without having written that byte.
  pub cut_short :
      (d : ServerData) (c : ClientData) (f : Files) (h : ℕ) (body : List ℕ) (x : ℕ)
      → 2 ≤ piece
      → bytes ≡ body ++ x ∷ []
      → length body % piece ≡ 0
      → d.at ≡ 0
      → c.pf ≡ some h
      → c.count + 1 < copy_count
      → (n : ℕ) × Copied c f h body (eat (serve n d) c f)
  cut_short d c f h body x big e whole start open_file more =
      all_but_last (length body) d c f h body x (omega arith) big whole
        (ap (λ k. drop k bytes) start ∙ e) open_file more
