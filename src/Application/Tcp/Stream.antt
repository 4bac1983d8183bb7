-- ===== src/Application/Tcp/Stream.antt =====
-- src/layers/application/tcp.rs: a stream of frames, cut into chunks anywhere, is framed again.
use rs_modbus.Prelude.{
  ℕ, zero, suc, ◌+◌, ◌≤◌, ◌<◌, ◌≡◌, ◌≢◌, ◌⊎◌, inl, inr, refl, ap, ◌∙◌, sym, arith,
}
use rs_modbus.Prelude.{List, [], ◌∷◌, ◌++◌, append_assoc, map, Option, some, none, ◌>>=◌}
use rs_modbus.Prelude.{nested, concat, Bytes, IsU16, All, length, take, drop, length-append, hi, lo}
use rs_modbus.Prelude.{take-length_append, drop-length_append}
use rs_modbus.Prelude.HashMap.{
  HashMap, lookup, lookup-insert, lookup-insert_self, lookup-remove, nat_eq,
}
use rs_modbus.Types.{ApplicationDataUnit, Event, ConnectionId, ResponseFn}
use rs_modbus.Application.Tcp.{encode, frame, insufficient, try_extract_frame}
use rs_modbus.Application.Tcp.{extract_loop, process_data_event, frame_event, or_default, store}
use rs_modbus.Application.Tcp.Frames.{extract_loop_frame, extract_loop_insufficient}

-- A request or response as it is sent over TCP: it has its transaction ID, and at most 252 bytes
-- of payload.
pub record Sendable (adu : ApplicationDataUnit) : Type 0 where
  pub tid : ℕ
  pub tid_IsU16 : IsU16 tid
  pub has_tid : adu.transaction ≡ some tid
  pub fits : length adu.payload ≤ 252

-- The bytes of one message; the counter of `encode` plays no part.
abbrev pub wire : ApplicationDataUnit → Bytes
wire adu = (encode adu 0).0

abbrev pub wires : List ApplicationDataUnit → Bytes
wires [] = []
wires (adu ∷ rest) = wire adu ++ wires rest

abbrev header : ℕ → ApplicationDataUnit → Bytes
header tid adu =
    hi tid
    ∷ lo tid
    ∷ 0
    ∷ 0
    ∷ hi (length adu.payload + 2)
    ∷ lo (length adu.payload + 2)
    ∷ adu.unit
    ∷ adu.fc
    ∷ adu.payload

pub wire-header : (adu : ApplicationDataUnit) (s : Sendable adu) → wire adu ≡ header s.tid adu
unfolding encode
wire-header adu s = ground arith

pub length-wire :
    (adu : ApplicationDataUnit) → Sendable adu → length (wire adu) ≡ length adu.payload + 8
length-wire adu s = ap length (wire-header adu s) ∙ omega arith

-- A whole frame at the front is extracted.
extract_whole :
    (adu : ApplicationDataUnit) (rest : Bytes)
    → Sendable adu
    → try_extract_frame (wire adu ++ rest) ≡ frame (length (wire adu))
extract_whole adu rest s =
    ap (λ t. try_extract_frame (t ++ rest)) (wire-header adu s)
    ∙ whole
    ∙ ap frame (sym (length-wire adu s))
  where
    whole : try_extract_frame (header s.tid adu ++ rest) ≡ frame (length adu.payload + 8)
    whole = unfold try_extract_frame in ground (arith, length-append adu.payload rest, s.fits)

-- A proper part of a frame is not enough.
extract_part :
    (adu : ApplicationDataUnit) (b more : Bytes)
    → Sendable adu
    → wire adu ≡ b ++ more
    → 0 < length more
    → try_extract_frame b ≡ insufficient
unfolding try_extract_frame
extract_part adu (x0 ∷ x1 ∷ x2 ∷ x3 ∷ x4 ∷ x5 ∷ x6 ∷ x7 ∷ b) more s e h = ground (
  arith,
  sym (wire-header adu s) ∙ e,
  ap length (sym (wire-header adu s) ∙ e),
  length-append b more,
  s.fits,
)
extract_part adu b more s e h = ground arith

abbrev pub events : ResponseFn → ConnectionId → List ApplicationDataUnit → List Event
events r c adus = map (λ adu. frame_event r c (wire adu)) adus

-- What the loop makes of a front `b` of the stream, of which `later` is still to arrive.
record Progress (r : ResponseFn) (c : ConnectionId) (fuel : ℕ) (b later : Bytes)
    (adus : List ApplicationDataUnit) : Type 0 where
  done : List ApplicationDataUnit
  todo : List ApplicationDataUnit
  left : Bytes
  split : adus ≡ done ++ todo
  runs : extract_loop fuel r c b ≡ some (events r c done, left)
  left_ok : left ++ later ≡ wires todo
  all_todo : All Sendable todo
  stalled : (todo ≡ []) ⊎ (0 < length later)

one_more :
    {r : ResponseFn} {c : ConnectionId} {fuel : ℕ} {b m later : Bytes} {adu : ApplicationDataUnit}
    {adus : List ApplicationDataUnit}
    → b ≡ wire adu ++ m
    → Sendable adu
    → Progress r c fuel m later adus
    → Progress r c (suc fuel) b later (adu ∷ adus)
one_more {r} {c} {fuel} {b} {m} {later} {adu} {adus} p s ih = record {
  done = adu ∷ ih.done;
  todo = ih.todo;
  left = ih.left;
  split = ap (◌∷◌ adu) ih.split;
  runs = rw p (
      whole_runs
        (extract_loop_frame fuel r c (wire adu ++ m) _ _ (extract_whole adu m s) rest_runs));
  left_ok = ih.left_ok;
  all_todo = ih.all_todo;
  stalled = ih.stalled;
}
  where
    rest_runs :
        extract_loop fuel r c (drop (length (wire adu)) (wire adu ++ m))
        ≡ some (events r c ih.done, ih.left)
    rest_runs = rw (drop-length_append (wire adu) m) ih.runs

    whole_runs :
        extract_loop (suc fuel) r c (wire adu ++ m)
          ≡ some (
            frame_event r c (take (length (wire adu)) (wire adu ++ m)) ∷ events r c ih.done,
            ih.left,
          )
        → extract_loop (suc fuel) r c (wire adu ++ m) ≡ some (events r c (adu ∷ ih.done), ih.left)
    whole_runs h =
        h
        ∙ ap (λ (t : Bytes). some (frame_event r c t ∷ events r c ih.done, ih.left))
            (take-length_append (wire adu) m)

progress :
    (r : ResponseFn) (c : ConnectionId) (fuel : ℕ) (b later : Bytes)
    (adus : List ApplicationDataUnit)
    → length b < fuel
    → All Sendable adus
    → b ++ later ≡ wires adus
    → Progress r c fuel b later adus
progress r c zero b later adus h s e = absurd (omega arith)
progress r c (suc fuel) b later [] h s e = record {
  done = [];
  todo = [];
  left = b;
  split = refl;
  runs = extract_loop_insufficient fuel r c b (unfold try_extract_frame in ground (arith, bound));
  left_ok = e;
  all_todo = tt;
  stalled = inl refl;
}
  where
    bound : length b ≤ 0
    bound = omega (arith, ap length e, length-append b later)
progress r c (suc fuel) b later (adu ∷ adus) h (s, ss) e =
    elim (nested b later (wire adu) (wires adus) e) [
      | inl (m, p, q) ↦ one_more p s (
          progress r c fuel m later adus
            (omega (arith, ap length p, length-append (wire adu) m, length-wire adu s)) ss q)
      | inr (m, p, q, l) ↦ record {
        done = [];
        todo = adu ∷ adus;
        left = b;
        split = refl;
        runs = extract_loop_insufficient fuel r c b (extract_part adu b m s p l);
        left_ok = e;
        all_todo = (s, ss);
        stalled = inr (omega (arith, ap length q, length-append m (wires adus)));
      }
    ]

-- The bytes of one connection, chunk by chunk.
unfoldable pub feed :
    ResponseFn
    → ConnectionId
    → HashMap ConnectionId Bytes
    → List Bytes
    → Option (List Event × HashMap ConnectionId Bytes)
feed r c m [] = some ([], m)
feed r c m (chunk ∷ chunks) = do
  (sent, m') ← process_data_event m chunk r c
  (later, m'') ← feed r c m' chunks
  some (sent ++ later, m'')

-- The buffer of a connection; one that holds nothing has no entry.
abbrev Held : ConnectionId → HashMap ConnectionId Bytes → Bytes → Type 0
Held c m p = (p ≡ or_default (lookup c m)) × ((lookup c m ≡ none) ⊎ (0 < length p))

store-Held :
    (c : ConnectionId) (m : HashMap ConnectionId Bytes) (p : Bytes) → Held c (store c p m) p
unfolding store
store-Held c m [] = ground (arith, lookup-remove c c m)
store-Held c m (b ∷ p) = ground (arith, lookup-insert_self c (b ∷ p) m)

-- Other connections keep their buffers.
lookup-store :
    (c j : ConnectionId) (m : HashMap ConnectionId Bytes) (p : Bytes)
    → j ≢ c
    → lookup j (store c p m) ≡ lookup j m
unfolding store
lookup-store c j m [] h = ground (arith, lookup-remove c j m)
lookup-store c j m (b ∷ p) h = ground (arith, lookup-insert c j (b ∷ p) m)

events-append :
    (r : ResponseFn) (c : ConnectionId) (xs ys : List ApplicationDataUnit)
    → events r c (xs ++ ys) ≡ events r c xs ++ events r c ys
events-append r c [] ys = refl
events-append r c (x ∷ xs) ys = ap (◌∷◌ (frame_event r c (wire x))) (events-append r c xs ys)

pub record Framed (r : ResponseFn) (c : ConnectionId) (m : HashMap ConnectionId Bytes)
    (chunks : List Bytes) (adus : List ApplicationDataUnit) : Type 0 where
  pub buffers : HashMap ConnectionId Bytes
  pub runs : feed r c m chunks ≡ some (events r c adus, buffers)
  pub empty : lookup c buffers ≡ none
  pub others : (j : ConnectionId) → j ≢ c → lookup j buffers ≡ lookup j m

feed_chunk :
    {r : ResponseFn} {c : ConnectionId} {m : HashMap ConnectionId Bytes} {p chunk : Bytes}
    {chunks : List Bytes} {adus : List ApplicationDataUnit}
    → p ≡ or_default (lookup c m)
    → (pr : Progress r c (suc (length (p ++ chunk))) (p ++ chunk) (concat chunks) adus)
    → Framed r c (store c pr.left m) chunks pr.todo
    → Framed r c m (chunk ∷ chunks) adus
unfolding feed process_data_event
feed_chunk {r} {c} {m} {p} {chunk} {chunks} {adus} held pr ih = record {
  buffers = ih.buffers;
  runs = runs;
  empty = ih.empty;
  others = λ j h. ih.others j h ∙ lookup-store c j m pr.left h;
}
  where
    sent : process_data_event m chunk r c ≡ some (events r c pr.done, store c pr.left m)
    sent = rw (← held) (rw (pr.runs, process_data_event) refl)

    runs : feed r c m (chunk ∷ chunks) ≡ some (events r c adus, ih.buffers)
    runs =
        rw (sent, feed)
          (rw (ih.runs, feed)
            (ap (λ t. some (t, ih.buffers))
              (sym (ap (events r c) pr.split ∙ events-append r c pr.done pr.todo))))

feed-Framed :
    (r : ResponseFn) (c : ConnectionId) (m : HashMap ConnectionId Bytes) (p : Bytes)
    (chunks : List Bytes) (adus : List ApplicationDataUnit)
    → Held c m p
    → All Sendable adus
    → p ++ concat chunks ≡ wires adus
    → (adus ≡ []) ⊎ (0 < length (concat chunks))
    → Framed r c m chunks adus
unfolding feed
feed-Framed r c m p [] [] held s e st = record {
  buffers = m;
  runs = refl;
  empty = ground (arith, ap length e, length-append p []);
  others = λ j h. refl;
}
feed-Framed r c m p [] (adu ∷ adus) held s e st = absurd (ground arith)
feed-Framed r c m p (chunk ∷ chunks) adus held s e st =
    let pr =
      progress r c (suc (length (p ++ chunk))) (p ++ chunk) (concat chunks) adus (omega arith) s
        (append_assoc p chunk (concat chunks) ∙ e) in
    feed_chunk held.0 pr (
      feed-Framed r c (store c pr.left m) pr.left chunks pr.todo (store-Held c m pr.left)
        pr.all_todo pr.left_ok pr.stalled)

-- A stream of messages that arrives on a connection with an empty buffer, cut into chunks at any
-- places, is framed into exactly those messages, in order and with no error; the buffer is empty
-- afterwards, and other connections keep theirs.
pub process_stream :
    (r : ResponseFn) (c : ConnectionId) (m : HashMap ConnectionId Bytes) (chunks : List Bytes)
    (adus : List ApplicationDataUnit)
    → lookup c m ≡ none
    → All Sendable adus
    → concat chunks ≡ wires adus
    → Framed r c m chunks adus
process_stream r c m chunks adus fresh s e =
    feed-Framed r c m [] chunks adus (rw fresh (refl, inl refl)) s e (started adus s e)
  where
    started :
        (as' : List ApplicationDataUnit)
        → All Sendable as'
        → concat chunks ≡ wires as'
        → (as' ≡ []) ⊎ (0 < length (concat chunks))
    started [] s e = inl refl
    started (adu ∷ more) (s, ss) e =
        inr (omega (arith, ap length e, length-append (wire adu) (wires more), length-wire adu s))
