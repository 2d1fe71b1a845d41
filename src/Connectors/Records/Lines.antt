-- ===== src/Connectors/Records/Lines.antt =====
-- How recover reads the lines that append_record writes to the file of the journal.
use trading_infrastructure_c.Common.{
  ℕ, zero, suc, ◌≤◌, ◌≡◌, refl, sym, ap, ◌∙◌, some, List, [], ◌∷◌, ◌++◌, length, length-append,
  append_assoc, append-nil, ◌<◌, map, All, arith,
}
use trading_infrastructure_c.Connectors.Text.{
  IsWord, digits-append, write_number, read_number, read_word, read_number-write_number,
  read_number-space, read_word-append,
}
use trading_infrastructure_c.Connectors.Records.{
  JournalOperation, JournalState, submit, cancel, replace, Entry, DiskRecord, dash, operation_code,
  operation_of, state_code, state_of, line_text, read_record, read_records,
}

-- The record that a line is read back as.
unfoldable pub line_of : Entry → DiskRecord
line_of e = record {
  version = 1;
  op = e.op;
  client_order_id = e.client_order_id;
  related_client_order_id = e.related_client_order_id;
  attempt = e.attempt;
  state = e.state;
  venue_order_id = dash e.venue_order_id;
}

abbrev pub text_of : List Entry → List ℕ
text_of [] = []
text_of (e ∷ es) = line_text e [] ++ text_of es

abbrev pub HasWord : Entry → Type 0
HasWord e = IsWord e.venue_order_id

write_number-append :
    (n : ℕ) (text rest : List ℕ) → write_number n text ++ rest ≡ write_number n (text ++ rest)
unfolding write_number
write_number-append n text rest = digits-append (suc n) n text rest

line_text-append : (e : Entry) (rest : List ℕ) → line_text e [] ++ rest ≡ line_text e rest
unfolding line_text
line_text-append e rest =
    rw
      (
        write_number-append,
        write_number-append,
        write_number-append,
        write_number-append,
        write_number-append,
        append_assoc (dash e.venue_order_id) (10 ∷ []) rest,
      )
      refl

operation_of-code : (op : JournalOperation) → operation_of (operation_code op) ≡ some op
operation_of-code submit = refl
operation_of-code cancel = refl
operation_of-code replace = refl

state_of-code : (s : JournalState) → state_of (state_code s) ≡ some s
state_of-code JournalState.none = refl
state_of-code JournalState.in_flight = refl
state_of-code JournalState.acked = refl
state_of-code JournalState.failed = refl

-- A number behind a space.
next_number :
    (n : ℕ) (text : List ℕ) → read_number (32 ∷ write_number n (32 ∷ text)) ≡ some (n, 32 ∷ text)
next_number n text =
    read_number-space 32 (write_number n (32 ∷ text)) refl ∙ read_number-write_number n 32 text refl

dash_word :
    (w : List ℕ) (text : List ℕ)
    → IsWord w
    → read_word (32 ∷ (dash w ++ 10 ∷ text)) ≡ some (dash w, 10 ∷ text)
dash_word [] text h = read_word-append 45 [] 10 text (refl, tt) refl
dash_word (c ∷ w) text h = read_word-append c w 10 text h refl

read_record-line_text :
    (e : Entry) (rest : List ℕ)
    → HasWord e
    → read_record (line_text e rest) ≡ some (line_of e, 10 ∷ rest)
unfolding read_record line_text line_of
read_record-line_text e rest h =
    rw
      (
        read_record,
        line_text,
        next_number,
        next_number,
        next_number,
        next_number,
        next_number,
        dash_word e.venue_order_id rest h,
        operation_of-code e.op,
        state_of-code e.state,
      )
      refl

read_record-newline : (text : List ℕ) → read_record (10 ∷ text) ≡ read_record text
unfolding read_record
read_record-newline text = rw (read_number-space 10 text refl) refl

line_text-nonempty : (e : Entry) → 1 ≤ length (line_text e [])
unfolding line_text
line_text-nonempty e = omega arith

length-text_of : (es : List Entry) → length es ≤ length (text_of es)
length-text_of [] = omega arith
length-text_of (e ∷ es) =
    omega
      (arith, line_text-nonempty e, length-text_of es, length-append (line_text e []) (text_of es))

pub text_of-snoc :
    (es : List Entry) (e : Entry) → text_of (es ++ e ∷ []) ≡ text_of es ++ line_text e []
text_of-snoc [] e = append-nil (line_text e [])
text_of-snoc (f ∷ es) e =
    ap (λ text. line_text f [] ++ text) (text_of-snoc es e)
    ∙ sym (append_assoc (line_text f []) (text_of es) (line_text e []))

-- A text that begins as the lines of `es`, or is a newline in front of them.
read_records-lines :
    (es : List Entry) (n : ℕ) (text : List ℕ)
    → length es < n
    → All HasWord es
    → read_record text ≡ read_record (text_of es)
    → read_records n text ≡ map line_of es
unfolding read_records read_record
read_records-lines es zero text l w h = absurd (omega arith)
read_records-lines [] (suc n) text l w h = rw (read_records, h) refl
read_records-lines (e ∷ es) (suc n) text l w h =
    let first : read_record text ≡ some (line_of e, 10 ∷ text_of es) =
      h
      ∙ ap read_record (line_text-append e (text_of es))
      ∙ read_record-line_text e (text_of es) w.0 in
    rw (read_records, first)
      (ap (◌∷◌ (line_of e)) (
        read_records-lines es n (10 ∷ text_of es) (omega arith) w.1
          (read_record-newline (text_of es))))

-- The whole file.
pub read_records-text_of :
    (es : List Entry)
    → All HasWord es
    → read_records (suc (length (text_of es))) (text_of es) ≡ map line_of es
read_records-text_of es w =
    read_records-lines es (suc (length (text_of es))) (text_of es)
      (omega (arith, length-text_of es)) w refl
