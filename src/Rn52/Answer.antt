-- ===== src/Rn52/Answer.antt =====
-- How the driver judges an answer. `strcmp` is 0 on equal strings, so the tests of the source are
-- the wrong way round; what keeps the driver going is that the buffer seldom ends behind an answer.
use mathlib.Core.List.{append-nil}
use diy_acura_bluetooth.Prelude.{
  true_not_false, ℕ, ◌≤◌, ◌≡◌, ◌≢◌, ◌⊎◌, inl, inr, refl, sym, ◌∙◌, Bool, true, false, not,
  Bool-cases, List, [], ◌∷◌, ◌++◌, none, some, arith, get_or, Returns, ◌==◌, if◌then◌else◌,
}
use diy_acura_bluetooth.Prelude.Words.{elapsed}
use diy_acura_bluetooth.Rn52.State.{Rn52, Rn52State, rn52_cmd_timeout_millsec}
use diy_acura_bluetooth.Rn52.Chars.{strcmp, strncmp, c_string}
use diy_acura_bluetooth.Rn52.Text.{strcmp-same, strcmp-other}
use diy_acura_bluetooth.Rn52.Update.{
  go_on, is_cmd_reboot, take_answer, await_answer, store_char, dispatch, update,
}
use diy_acura_bluetooth.Rn52.Sending.{undisturbed, update-puts}

-- `_rn52_is_cmd_reboot` says no to every command: one that begins with `R,1` compares equal to it,
-- for which `strncmp` gives 0.
pub is_cmd_reboot_lem : (rn52 : Rn52) → is_cmd_reboot rn52 ≡ false
unfolding is_cmd_reboot strncmp
is_cmd_reboot_lem rn52 = go rn52.tx_cmd
  where
    go :
        (t : List ℕ)
        → (if not (get_or t 0 0 == b'R')
            then false
            else if not (get_or t 1 0 == b',')
            then false
            else if not (get_or t 2 0 == b'1')
            then false
            else strncmp t (b'R' ∷ b',' ∷ b'1' ∷ []) 3)
          ≡ false
    go [] = refl
    go (a ∷ []) = ground arith
    go (a ∷ b ∷ []) = ground arith
    go (a ∷ b ∷ c ∷ t) = ground arith

-- `AOK` and the end of a line: the module's consent.
abbrev pub consent : List ℕ
consent = b'A' ∷ b'O' ∷ b'K' ∷ 13 ∷ 10 ∷ []

update-judged :
    (rn52 : Rn52) (ms : ℕ) (event pin : Bool)
    → rn52.state ≡ Rn52State.action_or_set_cmd_await_resp
    → 5 ≤ rn52.rx_str_len
    → elapsed ms rn52.reply_milli_sec_time_stamp ≤ rn52_cmd_timeout_millsec
    → update rn52 ms event none pin
      ≡ some (
        go_on rn52
            (if strcmp rn52.rx_str consent then rn52.return_state else Rn52State.action_or_set_cmd),
        pin,
        [],
      )
unfolding update store_char dispatch await_answer take_answer
update-judged rn52 ms event pin s full time = ground (arith, s, is_cmd_reboot_lem rn52)

-- The answer to a command is judged the wrong way round. Of a driver that waits for it and holds five
-- characters or more, with no character more and no event, and polled before the time-out: where
-- `rxStr` is the string `AOK` with the end of a line, the module's consent, two polls put out the
-- command that `txCmd` holds once more and wait again; where it is any other string, or none, one poll
-- takes it for consent, puts out nothing and goes on to the next state. Either way nothing is held then.
pub answer_judged :
    (rn52 : Rn52) (ms1 ms2 : ℕ) (pin : Bool) (command : List ℕ)
    → rn52.state ≡ Rn52State.action_or_set_cmd_await_resp
    → 5 ≤ rn52.rx_str_len
    → elapsed ms1 rn52.reply_milli_sec_time_stamp ≤ rn52_cmd_timeout_millsec
    → c_string rn52.tx_cmd ≡ some command
    → ((c_string rn52.rx_str ≡ some consent)
        × Returns
            (λ (rn52', out).
              (out ≡ command ++ 13 ∷ 10 ∷ [])
              × (rn52'.state ≡ Rn52State.action_or_set_cmd_await_resp)
              × (rn52'.rx_str_len ≡ 0))
            (undisturbed rn52 pin (ms1 ∷ ms2 ∷ [])))
      ⊎ ((c_string rn52.rx_str ≢ some consent)
          × Returns
              (λ (rn52', out).
                (out ≡ []) × (rn52'.state ≡ rn52.return_state) × (rn52'.rx_str_len ≡ 0))
              (undisturbed rn52 pin (ms1 ∷ [])))
unfolding undisturbed
answer_judged rn52 ms1 ms2 pin command s full time t =
    let judged = update-judged rn52 ms1 true pin s full time in
    elim (Bool-cases (strcmp rn52.rx_str consent)) [
      | inl differs ↦ inr (
        (λ e. true_not_false (sym differs ∙ strcmp-same consent rn52.rx_str e)),
        rw (judged, differs) (refl, refl, refl),
      )
      | inr same ↦ inl (
        strcmp-other consent rn52.rx_str (refl, (refl, (refl, (refl, (refl, tt))))) same,
        rw (judged, same, update-puts (go_on rn52 Rn52State.action_or_set_cmd) ms2 pin refl t)
            (append-nil (command ++ 13 ∷ 10 ∷ []), refl, refl),
      )
    ]
