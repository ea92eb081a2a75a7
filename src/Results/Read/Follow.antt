-- ===== src/Results/Read/Follow.antt =====
-- results.rs: a page of `read`, and the client that follows the cursors of its pages.
use mathlib.Core.List.{append-nil, map-append}
use rowtrail.Base.{
  ==_iff, Bool-cases, Ensures, Ensures-bind, Ensures-guarded, Ensures-ok, Ensures-weaken, List,
  Option, OptionAny, OptionAny-map_option, Result, Result-cases, [], ap, arith, drop, eqb_list_refl,
  err, inl, inr, leb, length, length-append, length-map, ltb, map, map_option, none, ok, refl, some,
  suc, sym, true, zero, ℕ, ◌&&◌, ◌++◌, ◌+◌, ◌-◌, ◌<◌, ◌==◌, ◌>>=◌, ◌∙◌, ◌∷◌, ◌≡◌, ◌≤◌, ◌⊎◌,
}
use rowtrail.Jobs.{Tables}
use rowtrail.Jobs.Snapshot.Reopen.{revision_asked}
use rowtrail.Jobs.Snapshot.{Snapshot, snapshot}
use rowtrail.Results.{ReadError, bad_limits, bad_offset, source_invalid, too_small}
use rowtrail.Results.Page.{Flow, Limits, Progress, initial, outcome, page_parts}
use rowtrail.Results.Page.Rows.{FlowSound, concat, drop-drop, drop_past, length-drop}
use rowtrail.Results.Page.Sound.{
  AllContain, FlowSound-IsPage, IsPage, initial-Collected, page_parts-Sound,
}
use rowtrail.Results.Read.{
  Codec, Cursor, ReadParams, Response, Workspace, agrees, cursor_at, cursor_for, cursor_in,
  fetch_part, finished_page, frame_limit, from_store, is_valid, limits_of, page, read, read_from,
  revision_of, selected_columns, start_at,
}

length_zero {ℓ} : {A : Type ℓ} (xs : List A) → length xs ≡ 0 → xs ≡ []
length_zero [] h = refl
length_zero (x ∷ xs) h = absurd (omega arith)

-- A snapshot has the revision that was asked for.
revision_agrees :
    (id : ℕ) (revision : Option ℕ) (db : Tables) (snap : Snapshot)
    → snapshot id revision db ≡ ok snap
    → agrees revision snap.revision ≡ true
unfolding agrees
revision_agrees id (some n) db snap h = (==_iff n snap.revision).1 (sym (revision_asked id n db h))
revision_agrees id none db snap h = refl

-- The rows of a revision are still the same: the state of its job and its validity may have changed.
abbrev pub IsSame : Snapshot → Snapshot → Type 0
IsSame snap again =
    (again.schema ≡ snap.schema)
    × (again.revision ≡ snap.revision)
    × (again.rows ≡ snap.rows)
    × (again.parts ≡ snap.parts)

module _ {Row Text : Type 0} (codec : Codec Row Text) (w : Workspace) where
  -- What a response must be: the rows are those that follow the start, at most as many as asked for,
  -- the cursor points behind them, and a page is empty only at the end.
  pub record Answers (p : ReadParams Text) (snap : Snapshot) (cells : List (Result ReadError Row))
      (start : ℕ) (r : Response Row Text) : Type 0 where
    pub left : List (Result ReadError Row)
    pub prefix : drop start cells ≡ map ok r.rows ++ left
    pub row_count : r.returned_rows ≡ length r.rows
    pub in_limit : r.returned_rows ≤ p.max_rows
    pub progress : (p.max_rows ≡ 0) ⊎ ((length cells ≤ start) ⊎ (0 < r.returned_rows))
    pub next : r.next_cursor ≡ cursor_for codec w p snap (start + r.returned_rows)

  finished-Answers :
      (p : ReadParams Text) (snap : Snapshot) (schema : List ℕ)
      (cells : List (Result ReadError Row)) (start : ℕ) (q : Progress Row)
      → IsPage (limits_of codec w p snap schema start) cells q
      → Answers p snap cells start (finished_page codec w p snap schema start q)
  finished-Answers p snap schema cells start q h = record {
    left = h.left;
    prefix = h.prefix;
    row_count = h.row_count;
    in_limit = h.in_limit;
    progress = h.progress;
    next = refl;
  }

  -- What the parts of a snapshot hold.
  abbrev pub Holds : Snapshot → List ℕ → List (List (Result ReadError Row)) → Type 0
  Holds snap schema css =
      AllContain (fetch_part codec.digest w) (codec.decode_part schema) snap.parts css

  read_from-Answers :
      (p : ReadParams Text) (snap : Snapshot) (schema : List ℕ)
      (css : List (List (Result ReadError Row))) (start : ℕ)
      → selected_columns (codec.width snap.schema) (codec.index_of snap.schema) p.columns
        ≡ ok schema
      → Holds snap schema css
      → Ensures (Answers p snap (concat css) start) (read_from codec w p snap start)
  unfolding read_from
  read_from-Answers p snap schema css start e h = rw e (
      Ensures-guarded _ (is_valid snap.validity) source_invalid _ (
        Ensures-guarded _ (leb start snap.rows) bad_offset _ (
          Ensures-guarded _ (leb (codec.response_bytes first + 256) p.max_bytes) too_small _ (
            Ensures-bind (FlowSound l (concat css) (concat css)) _ loop _
              (page_parts-Sound codec.encoded l length (fetch_part codec.digest w)
                (codec.decode_part schema) [] snap.parts css initial (initial-Collected l) h)
              λ flow k.
                Ensures-guarded _
                  (leb
                    (codec.response_bytes (finished_page codec w p snap schema start (outcome flow))
                      + 128)
                    p.max_bytes)
                  too_small (ok (finished_page codec w p snap schema start (outcome flow)))
                  (finished-Answers p snap schema (concat css) start (outcome flow)
                    (FlowSound-IsPage l (concat css) flow k))))))
    where
      l : Limits
      l = limits_of codec w p snap schema start

      first : Response Row Text
      first = page codec w p snap schema 0 (ltb start snap.rows) (cursor_for codec w p snap start)

      loop : Result ReadError (Flow Row)
      loop =
          page_parts codec.encoded l length (fetch_part codec.digest w) (codec.decode_part schema)
            initial snap.parts

  abbrev pub on_cursor :
      Option Text
      → List Row
      → (Text → Option (Result ReadError (List Row)))
      → Option (Result ReadError (List Row))
  on_cursor none rows ask = some (ok rows)
  on_cursor (some text) rows ask =
      map_option (λ rest. rest >>= λ others. ok (rows ++ others)) (ask text)

  abbrev pub on_page :
      Result ReadError (Response Row Text)
      → (Text → Option (Result ReadError (List Row)))
      → Option (Result ReadError (List Row))
  on_page (err e) ask = some (err e)
  on_page (ok r) ask = on_cursor r.next_cursor r.rows ask

  -- The client: it asks for the page behind each `next_cursor`, as long as it has fuel. Each request is
  -- read from the store as it stands then.
  unfoldable pub follow : ℕ → (ℕ → Tables) → ReadParams Text → Option (Result ReadError (List Row))
  unfolding read
  follow zero stores p = none
  follow (suc fuel) stores p =
      on_page (read codec w (stores 0) p)
        λ text. follow fuel (λ n. stores (suc n)) (record p { cursor = some text })

  Answers-IsSame :
      (p : ReadParams Text) (snap again : Snapshot) (cells : List (Result ReadError Row))
      (start : ℕ) (r : Response Row Text)
      → IsSame snap again
      → Answers p again cells start r
      → Answers p snap cells start r
  Answers-IsSame p snap again cells start r (schema, revision, rows, parts) a = record {
    left = a.left;
    prefix = a.prefix;
    row_count = a.row_count;
    in_limit = a.in_limit;
    progress = a.progress;
    next = rw (← rows, ← revision) a.next;
  }

  read_from-IsSame :
      (p : ReadParams Text) (snap again : Snapshot) (schema : List ℕ)
      (css : List (List (Result ReadError Row))) (start : ℕ)
      → IsSame snap again
      → selected_columns (codec.width snap.schema) (codec.index_of snap.schema) p.columns
        ≡ ok schema
      → Holds snap schema css
      → Ensures (Answers p snap (concat css) start) (read_from codec w p again start)
  read_from-IsSame p snap again schema css start same e h =
      Ensures-weaken (Answers p again (concat css) start) (Answers p snap (concat css) start)
        (read_from codec w p again start)
        (λ r. Answers-IsSame p snap again (concat css) start r same)
        (read_from-Answers p again schema css start (rw same.0 e) (rw same.3 h))

  -- The request stands at an offset of a revision that is there, or fails.
  pub record StandsAt (db : Tables) (p : ReadParams Text) (snap : Snapshot) (start : ℕ)
      : Type 0 where
    pub cursor : Option Cursor
    pub decoded : cursor_in codec w p p.cursor ≡ ok cursor
    pub offset : start_at cursor ≡ start
    pub stays : Ensures (IsSame snap) (snapshot p.result_ref (revision_of cursor p.revision) db)

  read-Answers :
      (db : Tables) (p : ReadParams Text) (snap : Snapshot) (schema : List ℕ)
      (css : List (List (Result ReadError Row))) (start : ℕ)
      → StandsAt db p snap start
      → selected_columns (codec.width snap.schema) (codec.index_of snap.schema) p.columns
        ≡ ok schema
      → Holds snap schema css
      → Ensures (Answers p snap (concat css) start) (read codec w db p)
  unfolding read from_store
  read-Answers db p snap schema css start at e h =
      Ensures-guarded _ (leb p.max_bytes (frame_limit - 512) && leb p.max_rows 10000) bad_limits _ (
        rw (at.decoded, at.offset)
          (elim (Result-cases (snapshot p.result_ref (revision_of at.cursor p.revision) db)) [
            | inl (f, x) ↦ rw x tt
            | inr (again, x) ↦ rw x (
                read_from-IsSame p snap again schema css start
                  (Ensures-ok (IsSame snap)
                    (snapshot p.result_ref (revision_of at.cursor p.revision) db) at.stays x)
                  e h)
          ]))

  -- A cursor that `cursor_for` made is accepted, at its offset.
  next-StandsAt :
      (db : Tables) (p : ReadParams Text) (snap : Snapshot) (offset : ℕ)
      → ((c : Cursor) → codec.decode_cursor (codec.encode_cursor c) ≡ ok c)
      → agrees p.revision snap.revision ≡ true
      → Ensures (IsSame snap) (snapshot p.result_ref (some snap.revision) db)
      → StandsAt db
          (record p { cursor = some (codec.encode_cursor (cursor_at codec w p snap offset)) })
          snap
          offset
  unfolding cursor_in
  next-StandsAt db p snap offset round a stays = record {
    cursor = some (cursor_at codec w p snap offset);
    decoded =
        (let store : (w.store_id == w.store_id) ≡ true = ground arith in
          let result : (p.result_ref == p.result_ref) ≡ true = ground arith in
          rw (round (cursor_at codec w p snap offset), store, result, eqb_list_refl p.columns, a)
            refl);
    offset = refl;
    stays = stays;
  }

  -- The whole of what a client receives.
  module _ (snap : Snapshot) (schema : List ℕ) (css : List (List (Result ReadError Row)))
      (round : (c : Cursor) → codec.decode_cursor (codec.encode_cursor c) ≡ ok c)
      (h : Holds snap schema css) (counted : snap.rows ≡ length (concat css)) where
    -- Behind a page lies what the page did not return.
    behind :
        (p : ReadParams Text) (start : ℕ) (r : Response Row Text)
        → (a : Answers p snap (concat css) start r) → start ≤ snap.rows
        → (drop (start + r.returned_rows) (concat css) ≡ a.left)
          × (start + r.returned_rows + length a.left ≡ snap.rows)
    behind p start r a within =
        let size = length-map {B = Result ReadError Row} ok r.rows in
        (
          drop-drop start r.returned_rows (concat css)
              ∙ ap (drop r.returned_rows) a.prefix
              ∙ drop_past r.returned_rows (map ok r.rows) a.left (a.row_count ∙ sym size),
          omega (
            arith,
            size,
            a.row_count,
            length-append (map ok r.rows) a.left,
            ap length a.prefix,
            length-drop start (concat css),
            counted,
          ),
        )

    -- The pages that follow are put behind a page.
    join :
        (start next : ℕ) (r : Response Row Text) (left : List (Result ReadError Row))
        (rest : Option (Result ReadError (List Row)))
        → drop start (concat css) ≡ map ok r.rows ++ left
        → drop next (concat css) ≡ left
        → OptionAny (Ensures (λ rows. map ok rows ≡ drop next (concat css))) rest
        → OptionAny
            (Ensures (λ rows. map ok rows ≡ drop start (concat css)))
            (map_option (λ m. m >>= λ rows. ok (r.rows ++ rows)) rest)
    join start next r left rest e b k =
        OptionAny-map_option (Ensures (λ rows. map ok rows ≡ drop next (concat css))) _ _ rest k
          λ m j.
            Ensures-bind (λ rows. map ok rows ≡ drop next (concat css)) _ m _ j
              λ rows i. map-append ok r.rows rows ∙ ap (λ t. map ok r.rows ++ t) (i ∙ b) ∙ sym e

    -- The same from any offset on.
    follow-All :
        (fuel start : ℕ) (stores : ℕ → Tables) (p : ReadParams Text)
        → StandsAt (stores 0) p snap start
        → agrees p.revision snap.revision ≡ true
        → ((n : ℕ) → Ensures (IsSame snap) (snapshot p.result_ref (some snap.revision) (stores n)))
        → selected_columns (codec.width snap.schema) (codec.index_of snap.schema) p.columns
          ≡ ok schema
        → 0 < p.max_rows
        → start ≤ snap.rows
        → snap.rows - start < fuel
        → OptionAny (Ensures (λ rows. map ok rows ≡ drop start (concat css))) (follow fuel stores p)
    unfolding follow
    follow-All zero start stores p at g stays e some_row within enough = absurd (omega arith)
    follow-All (suc fuel) start stores p at g stays e some_row within enough =
        elim (Result-cases (read codec w (stores 0) p)) [
          | inl (f, x) ↦ rw (x, OptionAny, Ensures) tt
          | inr (r, x) ↦
              let a =
                Ensures-ok (Answers p snap (concat css) start) (read codec w (stores 0) p)
                  (read-Answers (stores 0) p snap schema css start at e h) x in
              let (b, size) = behind p start r a within in
              elim (Bool-cases (leb snap.rows (start + r.returned_rows))) [
                | inl y ↦
                    let none_left = length_zero a.left (ground (arith, size)) in
                    rw (x, a.next, y, OptionAny, Ensures)
                      (sym (
                        a.prefix
                        ∙ ap (λ t. map ok r.rows ++ t) none_left
                        ∙ append-nil (map ok r.rows)))
                | inr y ↦
                    rw (x, a.next, y, OptionAny)
                      (join start (start + r.returned_rows) r a.left
                        (follow fuel (λ n. stores (suc n)) _) a.prefix b
                        (follow-All fuel (start + r.returned_rows) (λ n. stores (suc n)) _
                          (next-StandsAt (stores 1) p snap (start + r.returned_rows) round g
                            (stays 1))
                          g (λ n. stays (suc n)) e some_row (ground arith)
                          (ground (arith, a.progress, counted))))
              ]
        ]

    -- A client asks for a revision, or for the head, and follows the cursors of the pages, while the
    -- store changes from request to request: jobs go on, and the head may move. As long as the revision
    -- that it first met keeps its parts, rows and schema or can no longer be opened, it receives the
    -- rows of that revision, each once and in their order, unless a page fails. As many requests as
    -- there are rows, and one, are enough. The parts hold as many rows as the revision counts, a page
    -- may have a row, the columns are known, and a cursor decodes to what was encoded.
    pub follow-rows :
        (stores : ℕ → Tables) (p : ReadParams Text)
        → p.cursor ≡ none
        → snapshot p.result_ref p.revision (stores 0) ≡ ok snap
        → ((n : ℕ) → Ensures (IsSame snap) (snapshot p.result_ref (some snap.revision) (stores n)))
        → selected_columns (codec.width snap.schema) (codec.index_of snap.schema) p.columns
          ≡ ok schema
        → 0 < p.max_rows
        → OptionAny (Ensures (λ rows. map ok rows ≡ concat css)) (follow (suc snap.rows) stores p)
    unfolding cursor_in
    follow-rows stores p first opened stays e some_row =
        let at : StandsAt (stores 0) p snap 0 = record {
          cursor = none;
          decoded = rw first refl;
          offset = refl;
          stays = rw opened (refl, refl, refl, refl);
        } in
        follow-All (suc snap.rows) 0 stores p at
          (revision_agrees p.result_ref p.revision (stores 0) snap opened) stays e some_row
          (omega arith) (omega arith)
