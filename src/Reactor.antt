-- ===== src/Reactor.antt =====
-- include/server/reactor: the event loop, its handlers and channels, and the notifications between
-- the loop and the application.
pub mod Channel
pub mod Delivery
pub mod Demultiplexer
pub mod Dispatcher
pub mod EventsHandler
pub mod Notification
