-- ===== src/Rn52/State.antt =====
-- `Rn52Struct`, the states, commands and codes of common/rn52/rn52.h and rn52.c.
use diy_acura_bluetooth.Prelude.{ℕ, ◌*◌, Bool, List}
use diy_acura_bluetooth.Fifo.{Fifo}

pub data Rn52State : Type 0 where
  starting_up reboot read_initial_constat read_extfeat check_extfeat set_extfeat running
        switch_to_cmd_mode switch_to_cmd_delay_hi switch_to_cmd_delay_lo switch_to_cmd_await_resp
        action_or_set_cmd action_or_set_cmd_await_resp query_constat query_constat_await_resp
        query_extfeat query_extfeat_await_resp :
      Rn52State

-- The three serial functions are not kept here: the character that is available goes into the
-- update, and the characters that it puts out come out of it.
pub record Rn52 : Type 0 where
  pub state : Rn52State
  pub mode_cmd_not_data : Bool
  pub connection_status : ℕ  -- uint16_t
  pub ext_feat : ℕ  -- uint16_t
  pub return_state : Rn52State
  pub rx_str_len : ℕ  -- uint8_t
  pub rx_str : List ℕ  -- char[64]
  pub tx_cmd : List ℕ  -- char[16]
  pub event_lo_milli_sec_time_stamp : ℕ
  pub cmd2cmd_milli_sec_time_stamp : ℕ
  pub reply_milli_sec_time_stamp : ℕ
  pub avrcp_cmd_fifo : Fifo ℕ

abbrev pub rx_str_size : ℕ
rx_str_size = 64

abbrev pub tx_cmd_size : ℕ
tx_cmd_size = 16

abbrev pub rn52_cmd_timeout_millsec : ℕ
rn52_cmd_timeout_millsec = 500

abbrev pub rn52_constat_a2dp : ℕ
rn52_constat_a2dp = 4 * 256

abbrev pub rn52_extfeat_disable_system_tones : ℕ
rn52_extfeat_disable_system_tones = 128

abbrev pub default_extfeat : ℕ
default_extfeat = rn52_extfeat_disable_system_tones

abbrev pub rn52_avrcp_cmd_play : ℕ
rn52_avrcp_cmd_play = 1

abbrev pub rn52_avrcp_cmd_pause : ℕ
rn52_avrcp_cmd_pause = 2

abbrev pub rn52_avrcp_cmd_next : ℕ
rn52_avrcp_cmd_next = 3

abbrev pub rn52_avrcp_cmd_prev : ℕ
rn52_avrcp_cmd_prev = 4

abbrev pub rn52_avrcp_cmd_playpause : ℕ
rn52_avrcp_cmd_playpause = 5

abbrev pub rn52_avrcp_cmd_reconnect_last : ℕ
rn52_avrcp_cmd_reconnect_last = 6

abbrev pub rn52_avrcp_cmd_pairing : ℕ
rn52_avrcp_cmd_pairing = 7

abbrev pub rn52_avrcp_cmd_reboot : ℕ
rn52_avrcp_cmd_reboot = 8
