-- ===== src/Session/Plan/Intents.antt =====
-- How the intent of a session may move.
use podlaz.Common.{◌≡◌, ◌⊎◌, ok, arith}
use podlaz.Session.Model.{Intent, SessionState, resume, disconnect, terminal}
use podlaz.Session.Plan.{disarm_change}

-- The moves that disarming makes.
abbrev pub Disarmed : Intent → Intent → Intent → Type 0
Disarmed wanted i i' =
    (i' ≡ i)
    ⊎ (i ≡ resume) × (i' ≡ wanted)
    ⊎ (i ≡ disconnect) × (wanted ≡ terminal) × (i' ≡ terminal)

-- Disarming a session moves its intent from resume to the one wanted, or from disconnect to
-- terminal, or leaves it; nothing else of the record changes.
pub disarm_change-Disarmed :
    (i : Intent) (s : SessionState) {s' : SessionState}
    → disarm_change i s ≡ ok s'
    → Disarmed i s.intent s'.intent × (s' ≡ record s { intent = s'.intent })
unfolding disarm_change
disarm_change-Disarmed i s h = ground arith

-- A terminal session stays terminal.
pub disarm_change_terminal :
    (i : Intent) (s : SessionState) → s.intent ≡ terminal → disarm_change i s ≡ ok s
unfolding disarm_change
disarm_change_terminal i s h = ground arith
