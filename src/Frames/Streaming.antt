-- ===== src/Frames/Streaming.antt =====
-- engine/src/main.cc: whatever chunks the frames of messages come in, the messages come out.
use mathlib.Core.List.{append_assoc, append-nil}
use poker_epoll.Base.{
  ℕ, zero, suc, ◌+◌, ◌%◌, ◌≤◌, ◌<◌, ◌≡◌, ◌⊎◌, inl, inr, refl, ap, sym, subst, ◌∙◌, List, [], ◌∷◌,
  ◌++◌, All, none, some, length, length-append, done, Returns, Returns->>=, Returns-map, arith,
}
use poker_epoll.Frames.{Input, u32_size, ntohl, frame, try_parse_frame, take_messages, feed}
use poker_epoll.Frames.RoundTrip.{idle, try_parse_frame-frame, ntohl-htonl, length-htonl}
use poker_epoll.Frames.Pending.{
  IsPending, waits, takes, overflows, next_lem, pending-idle, ntohl-append, grown-IsPending,
}

-- The bytes of some messages, each in its frame.
abbrev pub frames : List (List ℕ) → List ℕ
frames [] = []
frames (msg ∷ msgs) = frame msg ++ frames msgs

-- The length and the four bytes of the header fit in 32 bits.
abbrev pub Fits : List ℕ → Type 0
Fits msg = length msg + 4 < u32_size

abbrev pub concat : List (List ℕ) → List ℕ
concat [] = []
concat (chunk ∷ chunks) = chunk ++ concat chunks

-- Of two ways to cut a list in two, one goes further.
cut :
    (b rest f g : List ℕ)
    → b ++ rest ≡ f ++ g
    → ((b' : List ℕ) × (b ≡ f ++ b') × (b' ++ rest ≡ g))
      ⊎ ((f' : List ℕ) × (0 < length f') × (b ++ f' ≡ f) × (rest ≡ f' ++ g))
cut b rest [] g e = inl (b, refl, e)
cut [] rest (x ∷ f) g e = inr (x ∷ f, omega arith, refl, e)
cut (y ∷ b) rest (x ∷ f) g e =
    let same : y ≡ x = cc in
    let tails : b ++ rest ≡ f ++ g = cc in
    elim (cut b rest f g tails) [
      | inl (b', e_b, e_g) ↦ inl (b', cc, e_g)
      | inr (f', some_left, e_f, e_rest) ↦ inr (f', some_left, cc, e_rest)
    ]

-- The length that stands in front of a part of a frame.
length_read :
    (b more msg : List ℕ) → b ++ more ≡ frame msg → 4 ≤ length b → Fits msg → ntohl b ≡ length msg
unfolding frame
length_read b more msg e long small =
    let fits : length msg % u32_size ≡ length msg = omega arith in
    let whole : ntohl (frame msg) ≡ length msg =
      rw (frame, fits) (ntohl-htonl (length msg) msg (omega arith)) in
    (sym (ntohl-append b more long) ∙ ap ntohl e) ∙ whole

length-frame : (msg : List ℕ) → length (frame msg) ≡ 4 + length msg
unfolding frame
length-frame msg = length-htonl (length msg % u32_size) msg

-- A part of a frame is waited for.
part_waits :
    (c : Input) (msg more : List ℕ)
    → IsPending c
    → c.buffer ++ more ≡ frame msg
    → 0 < length more
    → Fits msg
    → (c' : Input) × (try_parse_frame c ≡ done (none, c')) × IsPending c' × (c'.buffer ≡ c.buffer)
part_waits c msg more p e some_more small =
    let bytes : length c.buffer + length more ≡ 4 + length msg =
      (sym (length-append c.buffer more) ∙ ap {B = ℕ} length e) ∙ length-frame msg in
    elim (next_lem c p) [
      | waits c' ran p' same ↦ (c', ran, p', same)
      | takes m rest ran there long shorter ↦
          absurd
            (omega (arith, bytes, some_more, long, length_read c.buffer more msg e there small))
      | overflows (there, over) ↦
          absurd (omega (arith, over, length_read c.buffer more msg e there small, small))
    ]

-- What is still to come, and a state of the parser: the bytes that it holds and those to come are the
-- frames of the messages to come.
abbrev pub IsAwaiting : List (List ℕ) → List ℕ → Input → Type 0
IsAwaiting msgs rest c = IsPending c × (c.buffer ++ rest ≡ frames msgs)

-- The frame of the message that comes next is not there as a whole.
abbrev pub IsPartial : List (List ℕ) → Input → Type 0
IsPartial [] c = Unit
IsPartial (msg ∷ msgs) c = length c.buffer < length (frame msg)

-- The messages that came out are the first of those that were sent: as many as have come as a whole.
-- No byte of the others is lost.
abbrev pub Delivers : List (List ℕ) → List ℕ → List (List ℕ) × Input → Type 0
Delivers msgs rest r =
    (to_come : List (List ℕ)) × (msgs ≡ r.0 ++ to_come)
    × IsAwaiting to_come rest r.1
    × IsPartial to_come r.1

-- All messages that are there are taken, and no byte is lost.
take_messages-Delivers :
    (fuel : ℕ) (msgs : List (List ℕ)) (rest : List ℕ) (c : Input)
    → All Fits msgs
    → length c.buffer < fuel
    → IsAwaiting msgs rest c
    → Returns (Delivers msgs rest) (take_messages fuel c)
unfolding take_messages
take_messages-Delivers zero msgs rest c fit enough a = absurd (omega (arith, enough))
take_messages-Delivers (suc fuel) [] rest c fit enough (p, e) =
    let nothing : length c.buffer + length rest ≡ 0 =
      sym (length-append c.buffer rest) ∙ ap {B = ℕ} length e in
    elim (next_lem c p) [
      | waits c' ran p' same ↦
          rw (ran, take_messages) ([], refl, (p', ap (λ b. b ++ rest) same ∙ e), tt)
      | takes m left ran there long shorter ↦ absurd (omega (arith, nothing, there))
      | overflows (there, over) ↦ absurd (omega (arith, nothing, there))
    ]
take_messages-Delivers (suc fuel) (msg ∷ msgs) rest c fit enough (p, e) =
    elim (cut c.buffer rest (frame msg) (frames msgs) e) [
      | inl (b', e_b, e_rest) ↦
          let took : try_parse_frame c ≡ done (some msg, idle b') =
            (pending-idle c p ∙ ap (λ b. try_parse_frame (idle b)) e_b)
            ∙ try_parse_frame-frame msg b' fit.0 in
          let shorter : length c.buffer ≡ 4 + length msg + length b' =
            ap {B = ℕ} length e_b
            ∙ (length-append (frame msg) b' ∙ ap (λ n. n + length b') (length-frame msg)) in
          let later =
            take_messages-Delivers fuel msgs rest (idle b') fit.1 (omega (arith, shorter, enough))
              (inl (refl, refl), e_rest) in
          rw (took, take_messages)
            (Returns->>= (Delivers msgs rest) (Delivers (msg ∷ msgs) rest)
              (take_messages fuel (idle b')) _ later
              (λ r (to_come, e_msgs, a, part). (to_come, ap (◌∷◌ msg) e_msgs, a, part)))
      | inr (f', some_left, e_f, e_rest) ↦
          let (c', ran, p', same) = part_waits c msg f' p e_f some_left fit.0 in
          let part : length c.buffer + length f' ≡ length (frame msg) =
            sym (length-append c.buffer f') ∙ ap {B = ℕ} length e_f in
          let as_long : length c'.buffer ≡ length c.buffer = ap {B = ℕ} length same in
          rw (ran, take_messages)
            (
              msg ∷ msgs,
              refl,
              (p', ap (λ b. b ++ rest) same ∙ e),
              omega (arith, part, as_long, some_left),
            )
    ]

later_Fits : (msgs to_come : List (List ℕ)) → All Fits (msgs ++ to_come) → All Fits to_come
later_Fits [] to_come h = h
later_Fits (msg ∷ msgs) to_come h = later_Fits msgs to_come h.1

-- What the read loop makes of the chunks from a state of the parser.
feed_from :
    (chunks msgs : List (List ℕ)) (rest : List ℕ) (c : Input)
    → All Fits msgs
    → IsAwaiting msgs (concat chunks ++ rest) c
    → IsPartial msgs c
    → Returns (Delivers msgs rest) (feed chunks c)
unfolding feed
feed_from [] msgs rest c fit a part = (msgs, refl, a, part)
feed_from (chunk ∷ chunks) msgs rest c fit (p, e) part =
    let bytes = c.buffer ++ chunk in
    let e' : bytes ++ (concat chunks ++ rest) ≡ frames msgs =
      (append_assoc c.buffer chunk (concat chunks ++ rest)
        ∙ ap (λ x. c.buffer ++ x) (sym (append_assoc chunk (concat chunks) rest)))
      ∙ e in
    Returns->>= (Delivers msgs (concat chunks ++ rest)) (Delivers msgs rest) _ _
      (take_messages-Delivers (suc (length bytes)) msgs (concat chunks ++ rest)
        (record c { buffer = bytes }) fit (omega arith) (grown-IsPending c chunk p, e'))
      (λ r (to_come, e_msgs, a, part').
        Returns->>= (Delivers to_come rest) (Delivers msgs rest) (feed chunks r.1) _
          (feed_from chunks to_come rest r.1 (later_Fits r.0 to_come (subst (All Fits) e_msgs fit))
            a part')
          (λ q (left, e_left, a', part''). (
            left,
            (e_msgs ∙ ap (λ x. r.0 ++ x) e_left) ∙ sym (append_assoc r.0 q.0 left),
            a',
            part'',
          )))

-- Whatever chunks a stream of frames comes in, from a new connection on, the read loop ends and the
-- messages that come out are the first of those that were sent, in order: all whose frames have come as a
-- whole, where each message's length and four fit in 32 bits. No byte of the others is lost.
pub feed-Delivers :
    (chunks msgs : List (List ℕ)) (rest : List ℕ)
    → All Fits msgs
    → concat chunks ++ rest ≡ frames msgs
    → Returns (Delivers msgs rest) (feed chunks (idle []))
feed-Delivers chunks [] rest fit e = feed_from chunks [] rest (idle []) fit (inl (refl, refl), e) tt
feed-Delivers chunks (msg ∷ msgs) rest fit e =
    feed_from chunks (msg ∷ msgs) rest (idle []) fit (inl (refl, refl), e)
      (omega (arith, length-frame msg))

-- Nothing is left to come where no byte is left to come.
nothing_left :
    (msgs : List (List ℕ)) (c : Input)
    → IsAwaiting msgs [] c
    → IsPartial msgs c
    → (msgs ≡ []) × (c.buffer ≡ [])
nothing_left [] c (p, e) part = (refl, sym (append-nil c.buffer) ∙ e)
nothing_left (msg ∷ msgs) c (p, e) part =
    let bytes : length c.buffer + 0 ≡ length (frame msg) + length (frames msgs) =
      (sym (length-append c.buffer []) ∙ ap {B = ℕ} length e)
      ∙ length-append (frame msg) (frames msgs) in
    absurd (omega (arith, bytes, part))

-- Where the chunks are the whole stream, exactly the messages that were sent come out, and no byte is left.
pub feed-frames :
    (chunks msgs : List (List ℕ))
    → All Fits msgs
    → concat chunks ≡ frames msgs
    → Returns (λ r. (r.0 ≡ msgs) × (r.1.buffer ≡ [])) (feed chunks (idle []))
feed-frames chunks msgs fit e =
    Returns-map (Delivers msgs []) _ (feed chunks (idle []))
      (feed-Delivers chunks msgs [] fit (append-nil (concat chunks) ∙ e))
      (λ r (to_come, e_msgs, a, part).
        let (none_left, no_bytes) = nothing_left to_come r.1 a part in
        (sym ((e_msgs ∙ ap (λ x. r.0 ++ x) none_left) ∙ append-nil r.0), no_bytes))
