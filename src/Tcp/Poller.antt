-- ===== src/Tcp/Poller.antt =====
-- net/Channel.h, net/Channel.cc and net/poller/EPollPoller.cc: what a channel wants to be told of,
-- and what epoll is told. The model follows one channel and the entry of its descriptor in the
-- poller; the calls of epoll_ctl for it are a list, in order.
pub mod Registration
use my_file_server.Common.{Bool, true, false, not, ◌&&◌, List, [], ◌∷◌, ◌++◌, if◌then◌else◌}

-- `events_`. The code sets EPOLLIN and EPOLLPRI together: `kReadEvent`; `kWriteEvent` is EPOLLOUT.
pub record Events : Type 0 where
  pub reading : Bool
  pub writing : Bool

-- `index_`
pub data Index : Type 0 where
  is_new is_added is_deleted : Index

pub data EpollCall : Type 0 where
  ctl_add ctl_mod : Events → EpollCall
  ctl_del : EpollCall

pub record Channel : Type 0 where
  pub events : Events
  pub index : Index
  -- whether `channels_` of the poller holds the channel at its descriptor
  pub in_map : Bool
  pub calls : List EpollCall

pub new_channel : Channel
new_channel = record {
  events = record { reading = false; writing = false };
  index = is_new;
  in_map = false;
  calls = [];
}

pub is_none_event : Channel → Bool
is_none_event c = not c.events.reading && not c.events.writing

-- `EPollPoller::update`, whose call is the one given
pub update : EpollCall → Channel → Channel
update call c = record c { calls = c.calls ++ call ∷ [] }

-- `EPollPoller::updateChannel`, for the index given
pub update_at : Index → Channel → Channel
update_at is_new c = update (ctl_add c.events) (record c { in_map = true; index = is_added })
update_at is_deleted c = update (ctl_add c.events) (record c { index = is_added })
update_at is_added c =
    if is_none_event c
    then record (update ctl_del c) { index = is_deleted }
    else update (ctl_mod c.events) c

pub update_channel : Channel → Channel
update_channel c = update_at c.index c

-- `EPollPoller::removeChannel`, for the index given
pub remove_at : Index → Channel → Channel
remove_at is_added c = record (update ctl_del (record c { in_map = false })) { index = is_new }
remove_at _ c = record c { in_map = false; index = is_new }

pub remove_channel : Channel → Channel
remove_channel c = remove_at c.index c

pub data Operation : Type 0 where
  enable_reading disable_reading enable_writing disable_writing disable_all remove : Operation

pub changed : Operation → Events → Events
changed enable_reading e = record e { reading = true }
changed disable_reading e = record e { reading = false }
changed enable_writing e = record e { writing = true }
changed disable_writing e = record e { writing = false }
changed disable_all e = record { reading = false; writing = false }
changed remove e = e

pub apply : Operation → Channel → Channel
apply remove c = remove_channel c
apply op c = update_channel (record c { events = changed op c.events })

pub run : List Operation → Channel → Channel
run [] c = c
run (op ∷ ops) c = run ops (apply op c)
