-- ===== src/Demo.antt =====
-- The demonstration of examples/mqtt_demo/demo.py and the evidence of examples/esp32.
pub mod Proxy
