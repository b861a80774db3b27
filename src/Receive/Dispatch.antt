-- ===== src/Receive/Dispatch.antt =====
-- `_receive_message`, for the messages about locks: fs/dlm/lock.c 4902-5026. What the others change
-- is the table of resources.
use lockify.Base.{Bool, if◌then◌else◌}
use lockify.State.Events.{
  MsgType, request, convert_msg, unlock, cancel_msg, request_reply, convert_reply, unlock_reply,
  cancel_reply, grant, bast, lookup_reply, notify_reply, Message,
}
use lockify.State.{State}
use lockify.Send.{receive_notify_reply}
use lockify.Receive.Master.{
  Lookup, receive_request, receive_convert, receive_unlock, receive_cancel,
}
use lockify.Receive.Reply.{
  receive_request_reply, receive_convert_reply, receive_unlock_reply, receive_cancel_reply,
  receive_grant, receive_bast, receive_lookup_reply,
}

abbrev pub dispatch : MsgType → State → Message → Lookup → State
dispatch request s ms l = (receive_request s ms l).0
dispatch convert_msg s ms l = (receive_convert s ms).0
dispatch unlock s ms l = (receive_unlock s ms).0
dispatch cancel_msg s ms l = (receive_cancel s ms).0
dispatch request_reply s ms l = (receive_request_reply s ms).0
dispatch convert_reply s ms l = (receive_convert_reply s ms).0
dispatch unlock_reply s ms l = (receive_unlock_reply s ms).0
dispatch cancel_reply s ms l = (receive_cancel_reply s ms).0
dispatch grant s ms l = (receive_grant s ms).0
dispatch bast s ms l = (receive_bast s ms).0
dispatch lookup_reply s ms l = receive_lookup_reply s ms
dispatch notify_reply s ms l = receive_notify_reply s ms.m_lkid
dispatch _ s ms l = s

-- `member` is what `dlm_is_member` says of the sender.
unfoldable pub receive_message : State → Message → Lookup → Bool → State
receive_message s ms l member = if member then dispatch ms.m_type s ms l else s
