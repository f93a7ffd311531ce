-- ===== src/Inbox/Gate.antt =====
-- The delivery gate and the relevance of reasons (hub/app/services/notification_service.py).
use ampla.Shared.{ℕ, Bool, true, false, nat_eq}
use ampla.Models.{
  NotifyLevel, Reason, mention, direct_message, task_assigned, approval_requested,
  autorespond_completed, autorespond_blocked, broadcast, team_mention, participating, subscribed,
  state_change, security_alert, escalation, system,
}

-- _PRIORITY
abbrev pub priority : Reason → ℕ
priority system = 0
priority subscribed = 1
priority participating = 1
priority state_change = 1
priority autorespond_completed = 1
priority autorespond_blocked = 2
priority direct_message = 2
priority task_assigned = 3
priority broadcast = 3
priority team_mention = 4
priority mention = 5
priority escalation = 5
priority approval_requested = 6
priority security_alert = 7

-- `reason in _HIGH_SIGNAL`
abbrev pub high_signal : Reason → Bool
high_signal mention = true
high_signal team_mention = true
high_signal approval_requested = true
high_signal broadcast = true
high_signal security_alert = true
high_signal escalation = true
high_signal _ = false

-- `reason in _ALWAYS_DELIVER`
abbrev pub always_deliver : Reason → Bool
always_deliver mention = true
always_deliver approval_requested = true
always_deliver security_alert = true
always_deliver _ = false

-- `reason in _DELIVER_AT_DEFAULT`
abbrev pub deliver_at_default : Reason → Bool
deliver_at_default team_mention = true
deliver_at_default direct_message = true
deliver_at_default task_assigned = true
deliver_at_default escalation = true
deliver_at_default reason = always_deliver reason

unfoldable pub should_deliver : NotifyLevel → Reason → Bool
should_deliver NotifyLevel.all reason = true
should_deliver NotifyLevel.mute reason = always_deliver reason
should_deliver NotifyLevel.mentions_and_direct reason = deliver_at_default reason
should_deliver NotifyLevel.unknown reason = deliver_at_default reason

-- Two reasons are the same text.
unfoldable pub reason_index : Reason → ℕ
reason_index mention = 0
reason_index direct_message = 1
reason_index task_assigned = 2
reason_index approval_requested = 3
reason_index autorespond_completed = 4
reason_index autorespond_blocked = 5
reason_index broadcast = 6
reason_index team_mention = 7
reason_index participating = 8
reason_index subscribed = 9
reason_index state_change = 10
reason_index security_alert = 11
reason_index escalation = 12
reason_index system = 13

unfoldable pub reason_eq : Reason → Reason → Bool
unfolding reason_index
reason_eq r s = nat_eq (reason_index r) (reason_index s)
