-- ===== src/Tests.antt =====
-- Runs of the definitions on concrete inputs, and the theorems at concrete inputs.
mod PlainPack
mod PeerOs
mod Peers
mod ProtocolTests
mod WubiTests
mod NgramTests
mod RerankTests
mod ServerTests
mod ClientTests
mod NewWordTests
mod UserDictTests
mod AutoLearnTests
mod EndpointTests
mod GitTests
mod StoreTests
mod DaemonTests
mod CliTests
mod LearnTests
