-- ===== src/Relay/ReplayBuffer/Synced.antt =====
-- relay/supervisor.rs, `DurableReplayBuffer`: when the buffer is not marked dirty, the pending file
-- holds its live events.
use yummi_lcu.Common.{◌≡◌, false, List, [], retain, unwrap_or}
use yummi_lcu.Relay.ReplayBuffer.{Event, Buffer, is_live}

-- What a restart would read back.
abbrev pub on_disk : Buffer → List Event
on_disk b = unwrap_or b.disk.file []

abbrev pub IsSynced : Buffer → Type 0
IsSynced b = b.persistence_dirty ≡ false → on_disk b ≡ retain is_live b.pending
