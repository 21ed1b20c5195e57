-- ===== src/Tests/LinkTests.antt =====
-- The link layer of common/mbus/mbus_link.c at concrete inputs.
use diy_acura_bluetooth.Prelude.{
  ℕ, ◌≡◌, refl, true, false, [], ◌∷◌, ◌++◌, Returns, replicate, arith,
}
use diy_acura_bluetooth.Fifo
use diy_acura_bluetooth.Fifo.{Fifo}
use diy_acura_bluetooth.Phy.State.{mbus_end_msg_code, mbus_low_too_long_code}
use diy_acura_bluetooth.Link.Types.{MsgBody, RxMsg, TxMsg}
use diy_acura_bluetooth.Link.Build
use diy_acura_bluetooth.Link.Core
use diy_acura_bluetooth.Link.Core.{Link}
use diy_acura_bluetooth.Link.Core.Direction.{is_turned, flip_if, SameRx, polled, all_framed}
use diy_acura_bluetooth.Link.Parse.Checksum.{checksum}
use diy_acura_bluetooth.Link.Damage
use diy_acura_bluetooth.Link.Damage.{GotChecksumError}
use diy_acura_bluetooth.Link.Core.Send.{framed, unpacked}
use diy_acura_bluetooth.Link.Core.Receive.{IsReady, receive}
use diy_acura_bluetooth.Link.Deliver
use diy_acura_bluetooth.Link.Deliver.{CanReceive, GotMessage, parsed_as}
use diy_acura_bluetooth.Link.Roundtrip
use diy_acura_bluetooth.Link.Roundtrip.{playing}

abbrev blank : RxMsg
blank = record {
  err_id = 0;
  parsed = record {
    direction_h2c = false;
    msg_type = 0;
    body = MsgBody.disk_info (record { disk = 0; tracks = 0; minutes = 0; seconds = 0; flags = 0 });
  };
  raw_nibbles = record { nibbles = replicate 32 0; num_nibbles = 0 };
}

abbrev no_tx : TxMsg
no_tx = record { nibbles = record { pack_nibbles = 0; num_nibbles = 0 } }

-- Room for two messages on each side.
abbrev idle_link : Link
idle_link = record {
  rx_msg_fifo = record {
    id = "mbusLinkRx";
    buffer = blank ∷ blank ∷ [];
    buffer_end = 2;
    capacity = 2;
    count = 0;
    element_size = 1;
    head = 0;
    tail = 0;
  };
  tx_msg_fifo = record {
    id = "mbusLinkTx";
    buffer = no_tx ∷ no_tx ∷ [];
    buffer_end = 2;
    capacity = 2;
    count = 0;
    element_size = 1;
    head = 0;
    tail = 0;
  };
  nibbles = record { nibbles = replicate 32 0; num_nibbles = 0 };
  rx_not_tx_mode = true;
}

idle_link-IsReady : IsReady idle_link
idle_link-IsReady = record { valid = omega arith; array = refl; at_start = refl }

idle_link-CanReceive : CanReceive blank idle_link
idle_link-CanReceive = record { ready = idle_link-IsReady; room = omega arith; space = omega arith }

-- Track 12, index 1, 1 minute and 5 seconds.
play_state_example :
    Returns
      (GotMessage idle_link (playing 11 1 65))
      (receive blank idle_link (framed (unpacked (Build.play_state 11 1 65 true).nibbles)))
play_state_example =
    Roundtrip.play_state_delivered blank idle_link 11 1 65 idle_link-CanReceive (omega arith)
      (omega arith) (omega arith)

-- A ping with a wrong checksum.
received_example :
    Returns
      (λ link'.
        (Fifo.Refine.contents link'.rx_msg_fifo
          ≡ Fifo.Refine.contents idle_link.rx_msg_fifo ++ parsed_as blank (1 ∷ 8 ∷ []) 9 ∷ [])
        × IsReady link')
      (receive blank idle_link (1 ∷ 8 ∷ 9 ∷ mbus_end_msg_code ∷ []))
received_example =
    Deliver.received blank idle_link (1 ∷ 8 ∷ []) 9 idle_link-IsReady (omega arith) (omega arith)
      (omega arith) (omega arith) (omega arith) (omega arith)

changing_example :
    Returns
      (GotMessage idle_link (Roundtrip.Changing.changed_to 3 11))
      (receive blank idle_link (framed (unpacked (Build.changing 3 11).nibbles)))
changing_example =
    Roundtrip.Changing.changing_delivered blank idle_link 3 11 idle_link-CanReceive (omega arith)
      (omega arith)

-- Disk 2, 14 tracks, 41 minutes and 30 seconds: read as 75 minutes and 32 seconds.
disk_info_example :
    Returns
      (GotMessage idle_link (Roundtrip.DiskInfo.info_of 2 14 2490))
      (receive blank idle_link (framed (unpacked (Build.disk_info 2 14 2490).nibbles)))
disk_info_example =
    Roundtrip.DiskInfo.disk_info_delivered blank idle_link 2 14 2490 idle_link-CanReceive
      (omega arith) (omega arith) (omega arith)

-- A ping whose second nibble has become 9.
changed_nibble_example :
    Returns
      (GotChecksumError idle_link)
      (receive blank idle_link ((1 ∷ 9 ∷ []) ++ checksum (1 ∷ 8 ∷ []) ∷ mbus_end_msg_code ∷ []))
changed_nibble_example =
    Damage.changed_nibble_found blank idle_link (1 ∷ []) 8 9 [] idle_link-CanReceive (omega arith)
      (omega arith) (omega arith) (omega arith) (omega arith) tt (omega arith)

-- A bus that was held low after the first nibbles.
signal_error_example :
    Returns
      (GotChecksumError idle_link)
      (receive blank idle_link (1 ∷ 8 ∷ mbus_low_too_long_code ∷ mbus_end_msg_code ∷ []))
signal_error_example =
    Damage.signal_error_read blank idle_link (1 ∷ 8 ∷ []) mbus_low_too_long_code
      idle_link-CanReceive (omega arith) (omega arith) (omega arith) (omega arith) (omega arith)

-- A link with a ping pending, and the transmitter's queue.
abbrev ping_msg : TxMsg
ping_msg = record { nibbles = record { pack_nibbles = 0x98; num_nibbles = 2 } }

abbrev sending_link : Link
sending_link = record idle_link {
  rx_not_tx_mode = false;
  tx_msg_fifo = record idle_link.tx_msg_fifo {
    buffer = ping_msg ∷ no_tx ∷ [];
    count = 1;
    head = 1;
  };
}

abbrev phy_fifo : Fifo ℕ
phy_fifo = record {
  id = "mbusPhyTx";
  buffer = replicate 8 0;
  buffer_end = 8;
  capacity = 8;
  count = 0;
  element_size = 1;
  head = 0;
  tail = 0;
}

sending_link-IsValid : Fifo.Inv.IsValid sending_link.tx_msg_fifo
sending_link-IsValid = omega arith

pending_sent_example :
    Returns
      (λ (link', f').
        (Fifo.Refine.contents f' ≡ Fifo.Refine.contents phy_fifo ++ all_framed (ping_msg ∷ []))
        × (Fifo.Refine.contents link'.tx_msg_fifo ≡ [])
        × (link'.rx_not_tx_mode ≡ false))
      (polled sending_link ((false, true) ∷ []) phy_fifo)
pending_sent_example =
    Core.Direction.pending_sent ((false, true) ∷ []) sending_link phy_fifo (ping_msg ∷ [])
      sending_link-IsValid (omega arith) refl refl refl (omega arith)
