-- ===== src/Rabbit.antt =====
-- components/rabbitmq_integration: messages, the connection, the publisher, consumers, and the
-- local queue.
pub mod Numbers
pub mod Message
pub mod Connection
pub mod Publisher
pub mod Consumer
pub mod LocalQueue
mod Tests
mod PublisherTests
mod ConsumerTests
