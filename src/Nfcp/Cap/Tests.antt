-- ===== src/Nfcp/Cap/Tests.antt =====
-- The capability class, and the whole of `nfcp_task`, with concrete tables.
use nodeflight_fw.Base.{
  ℕ, true, some, List, [], ◌∷◌, ◌≡◌, refl, Bytes, length, length-replicate, replicate, arith,
}
use nodeflight_fw.Module.{normal, peripheral}
use nodeflight_fw.Variable.{float}
use nodeflight_fw.Nfcp.State.{Nfcp, packet_buffer_size}
use nodeflight_fw.Nfcp.Turn.{Turned}
use nodeflight_fw.Nfcp.Cap.{Tables, Query}
use nodeflight_fw.Nfcp.Cap.Answers.{IsShort}
use nodeflight_fw.Nfcp.Run.{Event, nfcp_task}
use nodeflight_fw.Nfcp.Run.Forever.{nfcp_task-Turned}

abbrev tables : Tables
tables = record {
  resources = record { name = 0x70 ∷ 0x61 ∷ []; type = 3; count_avail = 1; ref = 0 } ∷ [];
  peripherals =
      record {
        tag = 0x75 ∷ [];
        rscs = record { tag = 0x70 ∷ 0x61 ∷ []; arg_nr = 0; attr = 7 } ∷ [];
        decl = record { pp_type = 1; num_rscs = 2; storage_size = 64 };
      }
      ∷ [];
  modules =
      record {
        name = 0x6d ∷ [];
        args =
            some (record { name = 0x61 ∷ []; mode = normal; type = peripheral; subtype = 1 } ∷ []);
        outputs = record { name = 0x6f ∷ []; type = float } ∷ [];
      }
      ∷ [];
  target = 0x74 ∷ [];
  clock = 216000000;
}

tables-IsShort : IsShort tables
tables-IsShort = record {
  target = omega arith;
  resources = (omega arith, tt);
  peripherals = ((omega arith, (omega arith, tt)), tt);
  modules =
      (record { own = omega arith; args = (omega arith, tt); outputs = (omega arith, tt) }, tt);
}

abbrev port : Nfcp
port = record {
  session_end_time = 5000;
  tx_depth = 0;
  rx_buffer = replicate packet_buffer_size 0;
  tx_buffer = replicate packet_buffer_size 0;
  session_id = 7;
  mgmt_storage = true;
  wire = [];
}

size : length port.tx_buffer ≡ packet_buffer_size
size = length-replicate {A = ℕ} packet_buffer_size 0

-- The first entry, its second kind of field, the first of them.
abbrev request : Bytes
request = 0 ∷ 0 ∷ 1 ∷ 0 ∷ 0 ∷ []

abbrev query : Query
query = record { obj_id = 0; field_type = 1; field_idx = 0 }

-- A call in two reads, then silence.
abbrev events : List Event
events =
    record {
      reads =
          record { tick = 4294967295; bytes = 6 ∷ 0x7d ∷ [] }
          ∷ record { tick = 3; bytes = 0x5e ∷ 0x7e ∷ [] }
          ∷ [];
      now = 4;
    }
    ∷ record { reads = []; now = 5 }
    ∷ []

nfcp_task-Turned_example : Turned 0 (nfcp_task tables true true 77 3 events port)
nfcp_task-Turned_example =
    nfcp_task-Turned tables true true 77 3 events 0 port tables-IsShort
      (record { rx_size = size; tx_size = size; held = refl })
