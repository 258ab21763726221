-- ===== src/Materials.antt =====
-- Conservative handling of learning materials: src/szs_hub/domain/materials.py.
pub mod Classifier
pub mod Workflow
mod Tests
