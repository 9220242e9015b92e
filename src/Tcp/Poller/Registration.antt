-- ===== src/Tcp/Poller/Registration.antt =====
-- net/poller/EPollPoller.cc: what the kernel knows of a channel.
use my_file_server.Common.{
  ◌≡◌, refl, ◌∙◌, ap, sym, Bool, true, false, List, [], ◌∷◌, ◌++◌, if◌then◌else◌,
}
use my_file_server.Tcp.Poller.{
  Events, Index, is_new, is_added, is_deleted, EpollCall, ctl_add, ctl_mod, ctl_del, Channel,
  new_channel, is_none_event, update, update_at, update_channel, remove_at, remove_channel,
  Operation, enable_reading, disable_reading, enable_writing, disable_writing, disable_all, remove,
  changed, apply, run,
}

-- The interest list of epoll for one descriptor. As epoll_ctl(2) says, adding a descriptor that is
-- there fails with EEXIST, and changing or taking out one that is not there with ENOENT.
data Interest : Type 0 where
  refused unregistered : Interest
  registered : Events → Interest

answer : EpollCall → Interest → Interest
answer (ctl_add e) unregistered = registered e
answer (ctl_mod e) (registered old) = registered e
answer ctl_del (registered old) = unregistered
answer _ _ = refused

-- The interest list after a list of calls.
interest : List EpollCall → Interest → Interest
interest [] known = known
interest (call ∷ calls) known = interest calls (answer call known)

interest-append :
    (calls : List EpollCall) (call : EpollCall) (known : Interest)
    → interest (calls ++ call ∷ []) known ≡ answer call (interest calls known)
unfolding interest
interest-append [] call known = refl
interest-append (c ∷ calls) call known = interest-append calls call (answer c known)

-- What the channel takes the kernel and the map of the poller to hold.
expected : Index → Events → Interest
expected is_added e = registered e
expected _ e = unregistered

is_known : Index → Bool
is_known is_new = false
is_known _ = true

pub record IsRegistered (c : Channel) : Type 0 where
  known : interest c.calls unregistered ≡ expected c.index c.events
  mapped : c.in_map ≡ is_known c.index

update-interest :
    (call : EpollCall) (c : Channel) (before after : Interest)
    → interest c.calls unregistered ≡ before
    → answer call before ≡ after
    → interest (update call c).calls unregistered ≡ after
unfolding update
update-interest call c before after h e =
    interest-append c.calls call unregistered ∙ ap (answer call) h ∙ e

if-IsRegistered :
    (test : Bool) (c d : Channel)
    → IsRegistered c
    → IsRegistered d
    → IsRegistered (if test then c else d)
if-IsRegistered true c d hc hd = hc
if-IsRegistered false c d hc hd = hd

update_at-IsRegistered :
    (i : Index) (c : Channel) (old : Events)
    → c.index ≡ i
    → interest c.calls unregistered ≡ expected i old
    → c.in_map ≡ is_known i
    → IsRegistered (update_at i c)
unfolding update_at update expected answer is_known
update_at-IsRegistered is_new c old hi h hm = record {
  known = update-interest (ctl_add c.events) c unregistered (registered c.events) h refl;
  mapped = refl;
}
update_at-IsRegistered is_deleted c old hi h hm = record {
  known = update-interest (ctl_add c.events) c unregistered (registered c.events) h refl;
  mapped = hm;
}
update_at-IsRegistered is_added c old hi h hm =
    if-IsRegistered (is_none_event c) (record (update ctl_del c) { index = is_deleted })
      (update (ctl_mod c.events) c)
      (record {
        known = update-interest ctl_del c (registered old) unregistered h refl;
        mapped = hm;
      })
      (record {
        known =
            update-interest (ctl_mod c.events) c (registered old) (registered c.events) h refl
            ∙ ap (λ (i : Index). expected i c.events) (sym hi);
        mapped = hm ∙ ap is_known (sym hi);
      })

remove_at-IsRegistered :
    (i : Index) (c : Channel)
    → interest c.calls unregistered ≡ expected i c.events
    → IsRegistered (remove_at i c)
unfolding remove_at update is_known expected answer
remove_at-IsRegistered is_added c h = record {
  known = update-interest ctl_del c (registered c.events) unregistered h refl;
  mapped = refl;
}
remove_at-IsRegistered is_new c h = record { known = h; mapped = refl }
remove_at-IsRegistered is_deleted c h = record { known = h; mapped = refl }

update_channel-IsRegistered :
    (c : Channel) (e : Events)
    → IsRegistered c
    → IsRegistered (update_channel (record c { events = e }))
unfolding update_channel
update_channel-IsRegistered c e r =
    update_at-IsRegistered c.index (record c { events = e }) c.events refl r.known r.mapped

apply-IsRegistered : (op : Operation) (c : Channel) → IsRegistered c → IsRegistered (apply op c)
unfolding apply remove_channel
apply-IsRegistered remove c r = remove_at-IsRegistered c.index c r.known
apply-IsRegistered enable_reading c r =
    update_channel-IsRegistered c (changed enable_reading c.events) r
apply-IsRegistered disable_reading c r =
    update_channel-IsRegistered c (changed disable_reading c.events) r
apply-IsRegistered enable_writing c r =
    update_channel-IsRegistered c (changed enable_writing c.events) r
apply-IsRegistered disable_writing c r =
    update_channel-IsRegistered c (changed disable_writing c.events) r
apply-IsRegistered disable_all c r = update_channel-IsRegistered c (changed disable_all c.events) r

run_from : (ops : List Operation) (c : Channel) → IsRegistered c → IsRegistered (run ops c)
unfolding run
run_from [] c r = r
run_from (op ∷ ops) c r = run_from ops (apply op c) (apply-IsRegistered op c r)

-- Whatever a new channel is switched to and taken out, in any order: no call of epoll_ctl is one
-- that is refused for a descriptor that is there or missing; the kernel has the channel exactly
-- where its index says so, with its events; and the map of the poller has it unless it is new.
pub run-IsRegistered : (ops : List Operation) → IsRegistered (run ops new_channel)
unfolding new_channel interest expected is_known
run-IsRegistered ops = run_from ops new_channel (record { known = refl; mapped = refl })
