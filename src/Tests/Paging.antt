-- ===== src/Tests/Paging.antt =====
-- The rows of a run, read page by page.
use acp_hub.Base.{
  ℕ, suc, ℤ, pos, negsuc, ◌+◌, ◌-◌, ◌*◌, ◌≤◌, ◌<◌, ◌^◌, ◌≡◌, refl, ap, sym, subst, ◌∙◌, Bool, true,
  false, List, [], ◌∷◌, ◌++◌, Option, none, some, String, if◌then◌else◌, ltb, leb, arith, All,
  All-map, length, Map, get, is_negative, string_eq, ◌==◌, option_eq, int_eq, bool_eq,
}
use acp_hub.Flow.Json.{Bytes}
use acp_hub.Store.Messages.Append.{append_message_lem}
use acp_hub.Store.Messages.{
  MessageRow, NewMessage, messages, append_message, new_row, max_message_seq, has_message, refers,
  local_turn, where_rows, order_by_seq, insert_row, in_conversation,
}
use acp_hub.Store.Messages.Order.{DistinctSeqs}
use acp_hub.Store.Cursor.{
  MessageCursorPayload, CursorCrypto, payload, has_dot, split_once, message_cursor_version,
  encode_message_cursor, decode_message_cursor, message_cursor_filter,
}
use acp_hub.Store.Cursor.Laws.{decode-encode, decode_authentic}
use acp_hub.Store.Paging.{Projection, selected, of_run, after, row_bytes, foreign_cursor}
use acp_hub.Store.Paging.Pages.{IsUnique, rows_after, bytes_of_rows}
use acp_hub.Store.Paging.Continue.{Readable, run_scope, FitsPage}
use acp_hub.Flow.Json.{object, end}
use acp_hub.Store.Transcript.{ViewMessage, Reading}
use acp_hub.Store.Transcript.Laws.{Covers}
use acp_hub.Cli.Send.{OutputLine, printed, emit_new_message_pages}
use acp_hub.Cli.Send.Shown.{Printed}
use acp_hub.Cli.Send.Laws.{emit_new_message_pages_lem}
use acp_hub.Hub.Wait.{RunRows, page_run_rows, run_rows, page_failed}
use acp_hub.Hub.Wait.Laws.{page_run_rows_lem}

abbrev row : ℕ → MessageRow
row s = record {
  id = "m";
  conv_id = "c";
  run_id = some "r";
  source = local_turn;
  current_projection = true;
  message_key = none;
  superseded_by = none;
  role = "assistant";
  kind = none;
  content = "hello";
  body_text = "hello";
  seq = s;
  created_at = "t0";
}

-- Rows with numbers in sequence.
unfoldable rows : ℕ → ℕ → List MessageRow
rows ℕ.zero s = []
rows (suc n) s = row s ∷ rows n (s + 1)

abbrev five : String → ℕ
five text = 5

-- Bytes without a dot, and back.
abbrev skip : ℕ → ℕ
skip c = if ltb c 46 then c else c + 1

abbrev skips : Bytes → Bytes
skips [] = []
skips (c ∷ cs) = skip c ∷ skips cs

abbrev back : ℕ → ℕ
back c = if ltb c 46 then c else c - 1

abbrev backs : Bytes → Bytes
backs [] = []
backs (c ∷ cs) = back c ∷ backs cs

-- Only the key of a payload is written.
abbrev key_of : ℤ → Bytes
key_of (pos k) = k ∷ []
key_of (negsuc k) = []

abbrev at_key : ℕ → MessageCursorPayload
at_key k = record {
  version = 1;
  conversation = "c";
  generation = pos 3;
  last_key = pos k;
  include_audit = false;
  run_id = some "r";
  start_after_seq = some (pos 0);
  filter = message_cursor_filter;
}

abbrev read_key : Bytes → Option MessageCursorPayload
read_key (k ∷ []) = some (at_key k)
read_key _ = none

abbrev plain : CursorCrypto
plain = record {
  to_vec = λ p. key_of p.last_key;
  from_slice = read_key;
  encode = skips;
  decode = λ text. some (backs text);
  signature = λ text. [];
}

back_lem : (c : ℕ) → back (skip c) ≡ c
back_lem c = ground arith

backs_lem : (text : Bytes) → backs (skips text) ≡ text
backs_lem [] = refl
backs_lem (c ∷ cs) = let a = back_lem c in let ih = backs_lem cs in cc

skips_lem : (text : Bytes) → has_dot (skips text) ≡ false
unfolding has_dot
skips_lem [] = refl
skips_lem (c ∷ cs) = let ih = skips_lem cs in ground (arith, ih)

plain-Readable : Readable plain five (run_scope "c" "r") (some (pos 0)) 200 3
unfolding encode_message_cursor
plain-Readable k small = record {
  parsed = refl;
  decoded = λ text. ap some (backs_lem text);
  without_dot = skips_lem;
  short = omega arith;
}

-- The rows that stand after a number.
rows-above : (n k s : ℕ) → k < s → All (λ m. k < m.seq) (rows n s)
unfolding rows
rows-above ℕ.zero k s h = tt
rows-above (suc n) k s h = (h, rows-above n k (s + 1) (omega (arith, h)))

rows-DistinctSeqs : (n s : ℕ) → DistinctSeqs (rows n s)
unfolding rows
rows-DistinctSeqs ℕ.zero s = tt
rows-DistinctSeqs (suc n) s = (
  All-map (λ m lt. omega (arith, lt)) (rows n (s + 1)) (rows-above n s (s + 1) (omega arith)),
  rows-DistinctSeqs n (s + 1),
)

rows-where :
    (test : MessageRow → Bool) (n s : ℕ)
    → ((k : ℕ) → s ≤ k → test (row k) ≡ true)
    → where_rows test (rows n s) ≡ rows n s
unfolding rows where_rows
rows-where test ℕ.zero s h = refl
rows-where test (suc n) s h =
    let a = h s (omega arith) in
    let ih = rows-where test n (s + 1) (λ k le. h k (omega (arith, le))) in ground (arith, a, ih)

insert_row_lem : (s n : ℕ) → insert_row (row s) (rows n (s + 1)) ≡ row s ∷ rows n (s + 1)
unfolding insert_row rows
insert_row_lem s ℕ.zero = refl
insert_row_lem s (suc n) = ground arith

rows-order : (n s : ℕ) → order_by_seq (rows n s) ≡ rows n s
unfolding rows order_by_seq
rows-order ℕ.zero s = refl
rows-order (suc n) s = ap (insert_row (row s)) (rows-order n (s + 1)) ∙ insert_row_lem s n

abbrev proj : ℕ → Projection
proj n = record { generations = ("c", 3) ∷ []; table = rows n 1 }

proj-there : (n : ℕ) → get "c" (proj n).generations ≡ some 3
unfolding get
proj-there n = refl

proj-IsUnique : (n : ℕ) → IsUnique "c" (rows n 1)
proj-IsUnique n =
    subst DistinctSeqs (sym (rows-where (λ m. m.conv_id == "c") n 1 (λ k le. refl)))
      (rows-DistinctSeqs n 1)

rows_lem : (n : ℕ) → rows_after (run_scope "c" "r") (rows n 1) (some (pos 0)) ≡ rows n 1
unfolding selected in_conversation of_run after
rows_lem n =
    ap order_by_seq
      (rows-where (selected (run_scope "c" "r") (some (pos 0))) n 1 (λ k le. ground (arith, le)))
    ∙ rows-order n 1

length-rows : (n s : ℕ) → length (rows n s) ≡ n
unfolding rows
length-rows ℕ.zero s = refl
length-rows (suc n) s = ap suc (length-rows n (s + 1))

rows-FitsPage : (n s : ℕ) → n + s < 2 ^ 63 → All (FitsPage plain five) (rows n s)
unfolding rows row_bytes
rows-FitsPage ℕ.zero s h = tt
rows-FitsPage (suc n) s h =
    ((omega arith, omega (arith, h)), rows-FitsPage n (s + 1) (omega (arith, h)))

bytes-rows : (n s : ℕ) → bytes_of_rows plain five (rows n s) ≡ 522 * n
unfolding rows bytes_of_rows row_bytes
bytes-rows ℕ.zero s = omega arith
bytes-rows (suc n) s = let ih = bytes-rows n (s + 1) in omega (arith, ih)

some_bytes : (n s : ℕ) → n < 16000 → bytes_of_rows plain five (rows n s) ≤ 8 * 1024 * 1024
some_bytes n s h = let e = bytes-rows n s in omega (arith, e, h)

-- What the loop gives for n rows.
abbrev run_result : ℕ → RunRows
run_result n =
    let all = rows_after (run_scope "c" "r") (rows n 1) (some (pos 0)) in
    if leb (length all) 200 then run_rows all else page_failed foreign_cursor

-- The rows of a run in a store of n rows.
found : (n : ℕ) → length (rows_after (run_scope "c" "r") (rows n 1) (some (pos 0))) ≡ n
found n = ap length (rows_lem n) ∙ length-rows n 1

rows_after-FitsPage :
    (n : ℕ)
    → n + 1 < 2 ^ 63
    → All (FitsPage plain five) (rows_after (run_scope "c" "r") (rows n 1) (some (pos 0)))
rows_after-FitsPage n h = subst (All (FitsPage plain five)) (sym (rows_lem n)) (rows-FitsPage n 1 h)

abbrev reading : Reading String
reading = record { chars = λ s. 104 ∷ 105 ∷ []; parse = λ s. object end; as_str = λ s. some s }

emit_new_message_pages_lem_example :
    (items : List ViewMessage) × (out : List OutputLine) × (emit_new_message_pages plain five
        reading 1000 "c" "r"
        (pos 0)
        false
        (proj 450)
      ≡ printed out)
    × Covers reading items (rows_after (run_scope "c" "r") (rows 450 1) (some (pos 0))) []
    × Printed false items out
emit_new_message_pages_lem_example =
    emit_new_message_pages_lem plain five "c" "r" (pos 0) 3 (proj 450) plain-Readable
      (proj-there 450) (proj-IsUnique 450) reading 1000 false
      (rows_after-FitsPage 450 (omega arith)) (let e = found 450 in omega (arith, e))

page_run_rows_lem_example : page_run_rows plain five 2 "c" "r" (pos 0) (proj 201) ≡ run_result 201
page_run_rows_lem_example =
    page_run_rows_lem plain five "c" "r" (pos 0) 3 (proj 201) plain-Readable (proj-there 201)
      (proj-IsUnique 201) 0 (rows_after-FitsPage 201 (omega arith))
      (subst (λ ms. bytes_of_rows plain five ms ≤ 8 * 1024 * 1024) (sym (rows_lem 201))
        (some_bytes 201 1 (omega arith)))

decode-encode_example :
    decode_message_cursor plain (encode_message_cursor plain (at_key 7)) ≡ payload (at_key 7)
decode-encode_example =
    decode-encode plain (at_key 7) (plain-Readable 7 (omega arith)) refl refl refl refl

read_back :
    decode_message_cursor plain (encode_message_cursor plain (at_key 7)) ≡ payload (at_key 7)
read_back = decode-encode plain (at_key 7) (plain-Readable 7 (omega arith)) refl refl refl refl

decode_authentic_example :
    (text : Bytes) × (coded : Bytes) × (signed : Bytes) × (split_once
        (encode_message_cursor plain (at_key 7))
      ≡ some (coded, signed))
    × (plain.decode coded ≡ some text)
    × (plain.decode signed ≡ some (plain.signature text))
    × (plain.from_slice text ≡ some (at_key 7))
    × ((at_key 7).version ≡ message_cursor_version)
    × ((at_key 7).filter ≡ message_cursor_filter)
    × (is_negative (at_key 7).last_key ≡ false)
decode_authentic_example =
    decode_authentic plain (encode_message_cursor plain (at_key 7)) (at_key 7) read_back

abbrev reply : NewMessage
reply = record {
  id = "n";
  conv_id = "c";
  run_id = some "r";
  source = local_turn;
  role = "assistant";
  kind = none;
  content = "bye";
  body_text = "bye";
}

abbrev known_conversations : Map String ℕ
known_conversations = ("c", 3) ∷ []

abbrev known_runs : Map String ℕ
known_runs = ("r", 0) ∷ []

append_message_lem_example :
    (messages "c" false (append_message known_conversations known_runs reply "t1" (rows 2 1)).0
      ≡ messages "c" false (rows 2 1)
        ++ (if reply.conv_id == "c"
            then new_row reply (max_message_seq "c" (rows 2 1) + 1) "t1" ∷ []
            else []))
    × DistinctSeqs (
        where_rows
          (λ k. k.conv_id == "c")
          (append_message known_conversations known_runs reply "t1" (rows 2 1)).0)
unfolding has_message get refers rows
append_message_lem_example =
    append_message_lem known_conversations known_runs reply "t1" (rows 2 1) "c" false refl refl refl
      (proj-IsUnique 2)
