-- ===== src/Rn52/Line.antt =====
-- How the driver hears an answer of the module: a line, character by character, into `rxStr`.
use mathlib.Core.List.{append_assoc}
use diy_acura_bluetooth.Prelude.{
  ℕ, suc, ◌+◌, ◌≤◌, ◌<◌, ◌≡◌, ◌≢◌, refl, sym, ap, ◌∙◌, Bool, false, List, [], ◌∷◌, ◌++◌, Option,
  none, some, arith, length, length-append, set, set-append_here, get_or-append_here, drop,
  drop_cons, All, ◌==◌, ◌>>=◌, if◌then◌else◌,
}
use mathlib.Core.Path.{ap₂}
use diy_acura_bluetooth.Prelude.Words.{u8, elapsed}
use diy_acura_bluetooth.Rn52.State.{Rn52, Rn52State, rx_str_size, rn52_cmd_timeout_millsec}
use diy_acura_bluetooth.Rn52.Chars.{hex_loop}
use diy_acura_bluetooth.Rn52.Update.{go_on, is_line, store_char, await_word, dispatch, update}

-- A poll: its time, and the character that is available then, if there is one.
abbrev pub Heard : Type 0
Heard = ℕ × Option ℕ

-- The driver polled, with the two pins as they are.
unfoldable pub hear : Rn52 → Bool → Bool → List Heard → Option (Rn52 × List ℕ)
hear rn52 event pin [] = some (rn52, [])
hear rn52 event pin ((ms, c) ∷ polls) = update rn52 ms event c pin >>= λ (rn52', pin', out).
    (hear rn52' event pin' polls >>= λ (rn52'', outs). some (rn52'', out ++ outs))

-- What may come within a line.
abbrev pub IsInLine : Option ℕ → Type 0
IsInLine none = Unit
IsInLine (some c) = (c < 256) × (c ≢ 10)

-- A poll before the time-out, at which no character comes, or one of a line.
abbrev pub InLine : ℕ → Heard → Type 0
InLine stamp p = (elapsed p.0 stamp ≤ rn52_cmd_timeout_millsec) × IsInLine p.1

abbrev pub chars : List Heard → List ℕ
chars [] = []
chars ((ms, none) ∷ ps) = chars ps
chars ((ms, some c) ∷ ps) = c ∷ chars ps

abbrev holding : Rn52 → List ℕ → ℕ → Rn52
holding rn52 rx_str n = record rn52 { rx_str = rx_str; rx_str_len = n }

update-stored :
    (rn52 : Rn52) (pre old : List ℕ) (o ms c : ℕ) (event pin : Bool)
    → rn52.state ≡ Rn52State.query_constat_await_resp
    → rn52.rx_str ≡ pre ++ o ∷ old
    → rn52.rx_str_len ≡ length pre
    → length pre < rx_str_size
    → InLine rn52.reply_milli_sec_time_stamp (ms, some c)
    → update rn52 ms event (some c) pin
      ≡ some (holding rn52 (pre ++ c ∷ old) (suc (length pre)), pin, [])
unfolding update store_char dispatch await_word
update-stored rn52 pre old o ms c event pin s held len room line = ground (
  arith,
  ap (λ l. set l rn52.rx_str_len (u8 c)) held,
  set-append_here pre o (u8 c) old rn52.rx_str_len len,
  get_or-append_here pre c 0 old (length pre) refl,
)

-- A poll without a character, before the time-out and with no line held, changes nothing.
update-idle :
    (rn52 : Rn52) (ms : ℕ) (event pin : Bool)
    → rn52.state ≡ Rn52State.query_constat_await_resp
    → is_line rn52 ≡ false
    → elapsed ms rn52.reply_milli_sec_time_stamp ≤ rn52_cmd_timeout_millsec
    → update rn52 ms event none pin ≡ some (rn52, pin, [])
unfolding update store_char dispatch await_word
update-idle rn52 ms event pin s no_line time = ground (arith, s, no_line)

stored-no_line :
    (rn52 : Rn52) (pre old : List ℕ) (c : ℕ)
    → c ≢ 10
    → is_line (holding rn52 (pre ++ c ∷ old) (suc (length pre))) ≡ false
stored-no_line rn52 pre old c ne =
    ground (arith, ne, get_or-append_here pre c 0 old (length pre) refl)

bind_some : (m : Option (Rn52 × List ℕ)) → (m >>= λ (r, outs). some (r, [] ++ outs)) ≡ m
bind_some none = refl
bind_some (some r) = refl

-- The buffer with the characters of a line over its first ones.
abbrev pub over : List ℕ → List ℕ → List ℕ
over cs old = cs ++ drop (length cs) old

hear-stored :
    (ps rest : List Heard) (rn52 : Rn52) (pre old : List ℕ) (event pin : Bool)
    → rn52.state ≡ Rn52State.query_constat_await_resp
    → rn52.rx_str ≡ pre ++ old
    → rn52.rx_str_len ≡ length pre
    → length (chars ps) ≤ length old
    → length pre + length (chars ps) ≤ rx_str_size
    → is_line rn52 ≡ false
    → All (InLine rn52.reply_milli_sec_time_stamp) ps
    → hear rn52 event pin (ps ++ rest)
      ≡ hear
          (holding rn52 (pre ++ over (chars ps) old) (length pre + length (chars ps)))
          event
          pin
          rest
unfolding hear
hear-stored [] rest rn52 pre old event pin s held len space room still line =
    ap (λ r. hear r event pin rest) (ap₂ (holding rn52) held (omega (arith, len)))
hear-stored ((ms, none) ∷ ps) rest rn52 pre old event pin s held len space room still line =
    ap
      (λ m. m >>= λ (rn52', pin', out).
        (hear rn52' event pin' (ps ++ rest) >>= λ (rn52'', outs). some (rn52'', out ++ outs)))
      (update-idle rn52 ms event pin s still line.0.0)
    ∙ bind_some (hear rn52 event pin (ps ++ rest))
    ∙ hear-stored ps rest rn52 pre old event pin s held len space room still line.1
hear-stored ((ms, some c) ∷ ps) rest rn52 pre [] event pin s held len space room still line =
    absurd (omega arith)
hear-stored ((ms, some c) ∷ ps) rest rn52 pre (o ∷ old) event pin s held len space room still line =
    let pre1 = pre ++ c ∷ [] in
    let longer = length-append pre (c ∷ []) in
    let rn1 = holding rn52 (pre ++ c ∷ old) (suc (length pre)) in
    ap
      (λ m. m >>= λ (rn52', pin', out).
        (hear rn52' event pin' (ps ++ rest) >>= λ (rn52'', outs). some (rn52'', out ++ outs)))
      (update-stored rn52 pre old o ms c event pin s held len (omega arith) line.0)
    ∙ bind_some (hear rn1 event pin (ps ++ rest))
    ∙ hear-stored ps rest rn1 pre1 old event pin s (sym (append_assoc pre (c ∷ []) old))
        (omega (arith, longer)) (omega arith) (omega (arith, longer))
        (stored-no_line rn52 pre old c line.0.1.1) line.1
    ∙ ap (λ r. hear r event pin rest)
        (ap₂ (holding rn52) (append_assoc pre (c ∷ []) (over (chars ps) old))
          (omega (arith, longer)))

update-newline :
    (rn52 : Rn52) (pre old : List ℕ) (o ms : ℕ) (event pin : Bool)
    → rn52.state ≡ Rn52State.query_constat_await_resp
    → rn52.rx_str ≡ pre ++ o ∷ old
    → rn52.rx_str_len ≡ length pre
    → length pre < rx_str_size
    → update rn52 ms event (some 10) pin
      ≡ some (
        if length pre == 5
            then record (go_on rn52 rn52.return_state) {
              rx_str = pre ++ 10 ∷ old;
              connection_status = hex_loop 4 0 (pre ++ 10 ∷ old) 0;
            }
            else record (go_on rn52 Rn52State.query_constat) { rx_str = pre ++ 10 ∷ old },
        pin,
        [],
      )
unfolding update store_char dispatch await_word
update-newline rn52 pre old o ms event pin s held len room = ground (
  arith,
  ap (λ l. set l rn52.rx_str_len 10) held,
  set-append_here pre o 10 old rn52.rx_str_len len,
  get_or-append_here pre 10 0 old (length pre) refl,
)

-- Waiting for the connection status, with nothing held.
pub record IsWaiting (rn52 : Rn52) : Type 0 where
  pub awaiting : rn52.state ≡ Rn52State.query_constat_await_resp
  pub buffer : length rn52.rx_str ≡ rx_str_size
  pub nothing : rn52.rx_str_len ≡ 0

-- A whole line is stored, and read or refused by its length.
pub hear-line :
    (rn52 : Rn52) (ps : List Heard) (ms : ℕ) (event pin : Bool)
    → IsWaiting rn52
    → length (chars ps) < rx_str_size
    → All (InLine rn52.reply_milli_sec_time_stamp) ps
    → (old : List ℕ) × (hear rn52 event pin (ps ++ (ms, some 10) ∷ [])
        ≡ some (
          if length (chars ps) == 5
              then record (go_on rn52 rn52.return_state) {
                rx_str = chars ps ++ 10 ∷ old;
                connection_status = hex_loop 4 0 (chars ps ++ 10 ∷ old) 0;
              }
              else record (go_on rn52 Rn52State.query_constat) { rx_str = chars ps ++ 10 ∷ old },
          [],
        ))
unfolding hear
hear-line rn52 ps ms event pin w short line =
    let cs = chars ps in
    let (o, old, cut, count) = drop_cons (length cs) rn52.rx_str (omega (arith, w.buffer)) in
    let heard = holding rn52 (cs ++ o ∷ old) (length cs) in
    let stored =
      hear-stored ps ((ms, some 10) ∷ []) rn52 [] rn52.rx_str event pin w.awaiting refl w.nothing
        (omega (arith, w.buffer)) (omega arith) (ground (arith, w.nothing)) line
      ∙ ap₂ (λ l n. hear (holding rn52 l n) event pin ((ms, some 10) ∷ [])) (ap (λ l. cs ++ l) cut)
          (omega arith) in
    (
      old,
      stored
          ∙ ap (λ m. m >>= λ (rn52', pin', out). some (rn52', out ++ []))
              (update-newline heard cs old o ms event pin w.awaiting refl refl short),
    )
