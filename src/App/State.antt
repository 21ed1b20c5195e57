-- ===== src/App/State.antt =====
-- `appStruct`, the states and the simple commands, which are numbers since the source computes with
-- them. The timer is what reading it gives; the passing of time adds to it.
use diy_acura_bluetooth.Prelude.{ℕ, Bool, List, Option, some, ◌>>=◌}
use diy_acura_bluetooth.Fifo
use diy_acura_bluetooth.Fifo.{Fifo}
use diy_acura_bluetooth.Link.Core.{Link}
use diy_acura_bluetooth.Rn52.State.{Rn52}
use diy_acura_bluetooth.Rn52.Commands.{reconnect_last}

pub data AppState : Type 0 where
  start stopped start_playing playing mbus_says_stop rn52_stopped : AppState

pub record App : Type 0 where
  pub state : AppState
  pub timer : ℕ
  pub simple_mbus_msg_fifo : Fifo ℕ
  pub link : Link
  pub rn52 : Rn52
  pub noshuttle : Bool
  pub repeat_all : Bool
  pub repeat_one : Bool
  pub disk : ℕ  -- uint8_t
  pub num_tracks : ℕ  -- uint8_t
  pub track : ℕ  -- uint8_t
  pub index : ℕ  -- uint8_t
  pub seconds : ℕ  -- unsigned int

abbrev pub ping : ℕ
ping = 2

abbrev pub head_power_on : ℕ
head_power_on = 3

abbrev pub play : ℕ
play = 4

abbrev pub pause : ℕ
pause = 5

abbrev pub stop : ℕ
stop = 6

abbrev pub switch_disk1 : ℕ
switch_disk1 = 7

abbrev pub switch_disk4 : ℕ
switch_disk4 = 10

abbrev pub switch_disk5 : ℕ
switch_disk5 = 11

abbrev pub switch_disk6 : ℕ
switch_disk6 = 12

abbrev pub next : ℕ
next = 13

abbrev pub prev : ℕ
prev = 14

abbrev pub simple_mbus_msg_num : ℕ
simple_mbus_msg_num = 32

abbrev pub num_tracks_init : ℕ
num_tracks_init = 16

-- `memory` is what the structure holds before, with a link and a driver that are set up. The size of
-- an item is the compiler's; the number of items is what the source gives by `sizeof`.
unfoldable pub init : App → List ℕ → Option App
init memory simple_mbus_rx_fifo_mem =
    Fifo.nomalloc_init "simpleMbusMsg" (some simple_mbus_rx_fifo_mem) simple_mbus_msg_num 1
    >>= λ fifo. some (record memory {
      simple_mbus_msg_fifo = fifo;
      state = AppState.start;
      disk = 3;
      track = 0;
      index = 0;
      seconds = 0;
      num_tracks = num_tracks_init;
      rn52 = reconnect_last memory.rn52;
    })
