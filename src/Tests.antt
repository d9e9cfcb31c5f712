-- ===== src/Tests.antt =====
-- Each property at a concrete input, one module for each part of the bot.
mod Config
mod Commands
mod Agent
mod Broker
mod Editor
mod Infrastructure
mod Mapper
mod Football
mod Birthday
mod Parser
mod Greetings
mod GroupAdmin
mod Redirect
mod Gateway
mod Limits
mod Teams
mod Mentions
mod Scores
